-- ===== src/Lock/Released.antt =====
-- src/utils/distributed-lock.ts: withLock.
use spane.Base.{
  ◌<◌, String, ◌≡◌, refl, sym, ◌∙◌, ap, inl, inr, Bool-cases, Option, none, some, Option-cases,
  ◌==◌, if◌then◌else◌, eq_iff,
}
use spane.Lock.Commands.{Redis, is_free, holds}
use spane.Lock.Scripts.{release_script_value}
use spane.Lock.{
  release, lock_key, GivenOptions, normalize_options, Renewal, start_renewal, finish, Outcome,
  returned, thrown, with_lock,
}

-- the end of the function as the caller of withLock sees it
abbrev pub handed_on : {A : Type 0} → Outcome A → Outcome (Option A)
handed_on (returned a) = returned (some a)
handed_on (thrown message) = thrown message

module _ (redis : Redis) where
  open redis use {Server, value_of, set_nx, set_nx_answer, set_nx_value}

  -- the server once the lock is taken, and once the function has ended
  abbrev pub taken : String → String → GivenOptions → Server → Server
  taken key token options s = (set_nx (lock_key key) token (normalize_options options).ttl s).1

  abbrev pub section_of :
      {A : Type 0}
      → String
      → String
      → GivenOptions
      → (Renewal redis → Outcome A × Renewal redis)
      → Server
      → Outcome A × Renewal redis
  section_of key token options fn s =
      fn (start_renewal redis (normalize_options options) (taken key token options s))

  finish_lem :
      (A : Type 0) (key token : String) (ended : Outcome A × Renewal redis)
      → ((finish redis key token ended).0 ≡ handed_on ended.0)
        × ((k : String)
            → value_of (finish redis key token ended).1 k ≡ (
                if lock_key key == k
                then if holds (value_of ended.1.server k) token
                  then none
                  else value_of ended.1.server k
                else value_of ended.1.server k))
  unfolding release
  finish_lem A key token (returned a, r) =
      (refl, λ k. release_script_value redis (lock_key key) token r.server k)
  finish_lem A key token (thrown message, r) =
      (refl, λ k. release_script_value redis (lock_key key) token r.server k)

  -- withLock runs the function exactly if the key was free, in which case it returns the value that the
  -- function returns, or throws the error that it throws; else it returns null and leaves every lock as
  -- it was. Whatever the function does to the server and however it ends, afterwards the key is not held
  -- under the token of this call, and where another token has taken the key in the meantime it keeps it.
  pub with_lock_releases :
      (A : Type 0) (key token : String) (options : GivenOptions)
      (fn : Renewal redis → Outcome A × Renewal redis) (s : Server)
      → 0 < (normalize_options options).ttl
      → (let ran = with_lock redis key token options fn s in
          let (result, r) = section_of key token options fn s in
          (ran.0
            ≡ (if is_free (value_of s (lock_key key)) then handed_on result else returned none))
          × ((k : String)
              → value_of ran.1 k ≡ (
                  if is_free (value_of s (lock_key key))
                  then if lock_key key == k
                    then if holds (value_of r.server k) token then none else value_of r.server k
                    else value_of r.server k
                  else value_of s k)))
  unfolding with_lock
  with_lock_releases A key token options fn s h =
      let free = set_nx_answer (lock_key key) token (normalize_options options).ttl s h in
      elim (Option-cases (value_of s (lock_key key))) [
        | inl e ↦
            rw (free ∙ ap is_free e, with_lock)
              (rw e (finish_lem A key token (section_of key token options fn s)))
        | inr (v, e) ↦
            rw (free ∙ ap is_free e, with_lock)
              (rw e (
                refl,
                λ k.
                    set_nx_value (lock_key key) token (normalize_options options).ttl s k h
                    ∙ (elim (Bool-cases (lock_key key == k)) [
                      | inl same ↦
                          let held = ap (value_of s) (sym ((eq_iff (lock_key key) k).0 same)) ∙ e in
                          rw same (rw held refl)
                      | inr other ↦ rw other refl
                    ]),
              ))
      ]
