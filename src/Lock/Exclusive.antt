-- ===== src/Lock/Exclusive.antt =====
-- src/utils/distributed-lock.ts: one holder at a time.
use spane.Base.{
  ℕ, ◌<◌, String, ◌≡◌, refl, ◌∙◌, ap, Bool, true, false, not, Bool-cases, inl, inr, Option, none,
  some, List, [], ◌∷◌, ◌==◌, ◌&&◌, arith, eq_iff,
}
use spane.Lock.Commands.{Redis, is_free, holds}
use spane.Lock.{lock_key, acquire}
use spane.Lock.Refines.{
  LockCall, acquire_call, release_call, extend_call, Table, specified, specified_all, AllHaveTtl,
  is_some, call-Agrees, perform_all, perform_all_refines,
}

-- a call on another key or under another token
abbrev pub is_foreign : String → String → LockCall → Bool
is_foreign key token (acquire_call k t ttl) = not (k == key && t == token)
is_foreign key token (release_call k t) = not (k == key && t == token)
is_foreign key token (extend_call k t ttl) = not (k == key && t == token)

abbrev pub AllForeign : String → String → List LockCall → Type 0
AllForeign key token [] = Unit
AllForeign key token (c ∷ cs) = (is_foreign key token c ≡ true) × AllForeign key token cs

held_after :
    (key token : String) (c : LockCall) (t : Table)
    → t key ≡ some token
    → is_foreign key token c ≡ true
    → (specified c t).1 key ≡ some token
held_after key token (acquire_call k v ttl) t h f = elim (Bool-cases (k == key)) [
  | inl same ↦ let e = ap t ((eq_iff k key).0 same) ∙ h in rw e h
  | inr other ↦ elim (Bool-cases (is_free (t k))) [
    | inl free ↦ rw free (rw other h)
    | inr taken ↦ rw taken h
  ]
]
held_after key token (release_call k v) t h f = elim (Bool-cases (k == key)) [
  | inl same ↦
      let e = ap t ((eq_iff k key).0 same) ∙ h in
      let n : (token == v) ≡ false = ground (arith, eq_iff v token, eq_iff token v) in rw e (rw n h)
  | inr other ↦ elim (Bool-cases (holds (t k) v)) [
    | inl own ↦ rw own (rw other h)
    | inr not_own ↦ rw not_own h
  ]
]
held_after key token (extend_call k v ttl) t h f = h

held_all :
    (key token : String) (cs : List LockCall) (t : Table)
    → t key ≡ some token
    → AllForeign key token cs
    → (specified_all cs t).1 key ≡ some token
held_all key token [] t h f = h
held_all key token (c ∷ cs) t h f =
    held_all key token cs (specified c t).1 (held_after key token c t h f.0) f.1

none_of : (o : Option String) → is_some o ≡ false → o ≡ none
none_of none h = refl
none_of (some v) h = cc

module _ (redis : Redis) where
  open redis use {Server, value_of}

  -- While a lock is held under a token, no sequence of acquire, release and extend calls on other keys or
  -- under other tokens, each with a time to live above 0 and with no key expiring in between, takes it
  -- away: afterwards it is still held under that token, and an acquire call of the key is refused.
  pub perform_all_exclusive :
      (key token other : String) (ttl : ℕ) (cs : List LockCall) (s : Server)
      → value_of s (lock_key key) ≡ some token
      → AllForeign key token cs
      → AllHaveTtl cs
      → 0 < ttl
      → (value_of (perform_all redis cs s).1 (lock_key key) ≡ some token)
        × ((acquire redis key (some ttl) other (perform_all redis cs s).1).0 ≡ none)
  perform_all_exclusive key token other ttl cs s h f ttls positive =
      let (_, table) = perform_all_refines redis cs s ttls in
      let held =
        ap (λ (t : Table). t key) table
        ∙ held_all key token cs (λ k. value_of s (lock_key k)) h f in
      let refused =
        (call-Agrees redis (acquire_call key other (some ttl)) (perform_all redis cs s).1
          positive).0
        ∙ ap is_free held in
      (held, none_of _ refused)
