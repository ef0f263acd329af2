-- ===== src/Lock/Refines.antt =====
-- src/utils/distributed-lock.ts: the class against a table of locks.
use text.Mathlib.TextLemmas.{append_cancel_left}
use mathlib.Core.Path.{fun_ext}
use spane.Base.{
  ℕ, ◌<◌, String, ◌≡◌, refl, sym, ◌∙◌, ap, inl, inr, Bool, true, false, Bool-cases, if_cases,
  Option, none, some, Option-cases, List, [], ◌∷◌, ◌==◌, eqb, if◌then◌else◌, eq_iff,
}
use spane.Lock.Commands.{Redis, is_free, holds, count_of}
use spane.Lock.Scripts.{
  release_script_answer, release_script_value, extend_script_answer, extend_script_value,
}
use spane.Lock.{lock_key, token_if, or_else, default_ttl, acquire, release, extend}

-- the calls of any number of instances, each with its key and its token
pub data LockCall : Type 0 where
  acquire_call : (key token : String) (ttl : Option ℕ) → LockCall
  release_call : (key token : String) → LockCall
  extend_call : (key token : String) (ttl : ℕ) → LockCall

abbrev pub is_some {ℓ} : {A : Type ℓ} → Option A → Bool
is_some none = false
is_some (some a) = true

-- a table of locks: which token holds a key
abbrev pub Table : Type 0
Table = String → Option String

abbrev pub put_lock : String → Option String → Table → Table
put_lock key o t k = if key == k then o else t k

-- what each call answers, and what it makes of the table
abbrev pub specified : LockCall → Table → Bool × Table
specified (acquire_call key token ttl) t =
    (is_free (t key), if is_free (t key) then put_lock key (some token) t else t)
specified (release_call key token) t =
    (holds (t key) token, if holds (t key) token then put_lock key none t else t)
specified (extend_call key token ttl) t = (holds (t key) token, t)

-- a time to live of 0 is an error for Redis, or expires a key at once
abbrev pub HasTtl : LockCall → Type 0
HasTtl (acquire_call key token ttl) = 0 < or_else ttl default_ttl
HasTtl (release_call key token) = Unit
HasTtl (extend_call key token ttl) = 0 < ttl

abbrev pub AllHaveTtl : List LockCall → Type 0
AllHaveTtl [] = Unit
AllHaveTtl (c ∷ cs) = HasTtl c × AllHaveTtl cs

abbrev pub specified_all : List LockCall → Table → List Bool × Table
specified_all [] t = ([], t)
specified_all (c ∷ cs) t =
    let (answer, t') = specified c t in
    let (answers, t'') = specified_all cs t' in (answer ∷ answers, t'')

module _ (redis : Redis) where
  open redis use {Server, value_of, set_nx_answer, set_nx_value}

  abbrev pub perform : LockCall → Server → Bool × Server
  perform (acquire_call key token ttl) s =
      let (answer, s') = acquire redis key ttl token s in (is_some answer, s')
  perform (release_call key token) s = release redis key token s
  perform (extend_call key token ttl) s = extend redis key token ttl s

  -- the locks that the server holds
  abbrev pub table_of : Server → Table
  table_of s key = value_of s (lock_key key)

  key_eq : (key k : String) → (lock_key key == lock_key k) ≡ (key == k)
  key_eq key k = elim (Bool-cases (key == k)) [
    | inl e ↦ (eq_iff _ _).1 (ap lock_key ((eq_iff key k).0 e)) ∙ sym e
    | inr e ↦ elim (Bool-cases (lock_key key == lock_key k)) [
      | inl same ↦
          let h = (eq_iff key k).1 (append_cancel_left "lock:" key k ((eq_iff _ _).0 same)) in cc
      | inr apart ↦ apart ∙ sym e
    ]
  ]

  -- one call does to the server what it does to the table, and answers the same
  abbrev pub Agrees : LockCall → Server → Type 0
  Agrees c s =
      ((perform c s).0 ≡ (specified c (table_of s)).0)
      × ((k : String) → table_of (perform c s).1 k ≡ (specified c (table_of s)).1 k)

  is_some-token_if : (b : Bool) (token : String) → is_some (token_if b token) ≡ b
  is_some-token_if true token = refl
  is_some-token_if false token = refl

  eqb-count_of : (b : Bool) → eqb (count_of b) 1 ≡ b
  eqb-count_of true = refl
  eqb-count_of false = refl

  acquire-Agrees :
      (key token : String) (ttl : Option ℕ) (s : Server)
      → 0 < or_else ttl default_ttl
      → Agrees (acquire_call key token ttl) s
  unfolding acquire
  acquire-Agrees key token ttl s h = (
    is_some-token_if _ token ∙ set_nx_answer (lock_key key) token (or_else ttl default_ttl) s h,
    λ k.
        set_nx_value (lock_key key) token (or_else ttl default_ttl) s (lock_key k) h
        ∙ (rw (key_eq key k) (elim (Bool-cases (key == k)) [
          | inl same ↦
              let e = ap (table_of s) ((eq_iff key k).0 same) in
              rw same (
                rw e (elim (Option-cases (table_of s k)) [
                  | inl free ↦ rw free (rw same refl)
                  | inr (v, held) ↦ rw held (sym held)
                ]))
          | inr other ↦ rw other (
              if_cases (λ (t : Table). table_of s k ≡ t k) (is_free (table_of s key)) _ _
                (λ _. rw other refl) (λ _. refl))
        ])),
  )

  release-Agrees : (key token : String) (s : Server) → Agrees (release_call key token) s
  unfolding release
  release-Agrees key token s = (
    ap (λ n. eqb n 1) (release_script_answer redis (lock_key key) token s) ∙ eqb-count_of _,
    λ k.
        release_script_value redis (lock_key key) token s (lock_key k)
        ∙ (rw (key_eq key k) (elim (Bool-cases (key == k)) [
          | inl same ↦
              let e = ap (table_of s) ((eq_iff key k).0 same) in
              rw same (
                rw e (elim (Bool-cases (holds (table_of s k) token)) [
                  | inl held ↦ rw held (rw same refl)
                  | inr other ↦ rw other refl
                ]))
          | inr other ↦ rw other (
              if_cases (λ (t : Table). table_of s k ≡ t k) (holds (table_of s key) token) _ _
                (λ _. rw other refl) (λ _. refl))
        ])),
  )

  extend-Agrees :
      (key token : String) (ttl : ℕ) (s : Server) → 0 < ttl → Agrees (extend_call key token ttl) s
  unfolding extend
  extend-Agrees key token ttl s h = (
    ap (λ n. eqb n 1) (extend_script_answer redis (lock_key key) token ttl s) ∙ eqb-count_of _,
    λ k. extend_script_value redis (lock_key key) token ttl s (lock_key k) h,
  )

  pub call-Agrees : (c : LockCall) (s : Server) → HasTtl c → Agrees c s
  call-Agrees (acquire_call key token ttl) s h = acquire-Agrees key token ttl s h
  call-Agrees (release_call key token) s h = release-Agrees key token s
  call-Agrees (extend_call key token ttl) s h = extend-Agrees key token ttl s h

  -- the answers of a run, and what it leaves
  unfoldable pub perform_all : List LockCall → Server → List Bool × Server
  perform_all [] s = ([], s)
  perform_all (c ∷ cs) s =
      let (answer, s') = perform c s in
      let (answers, s'') = perform_all cs s' in (answer ∷ answers, s'')

  -- Any sequence of acquire, release and extend calls, by any instances with any tokens on any keys, each
  -- with a time to live above 0 and with no key expiring in between, gives the answers that a table of
  -- locks gives, and leaves the locks as in the table: a free key is acquired, a held one refused, and a
  -- lock is released and extended only under its token.
  pub perform_all_refines :
      (cs : List LockCall) (s : Server)
      → AllHaveTtl cs
      → ((perform_all cs s).0 ≡ (specified_all cs (table_of s)).0)
        × (table_of (perform_all cs s).1 ≡ (specified_all cs (table_of s)).1)
  unfolding perform_all
  perform_all_refines [] s h = (refl, refl)
  perform_all_refines (c ∷ cs) s h =
      let (answer, table) = call-Agrees c s h.0 in
      let (answers, tables) = perform_all_refines cs (perform c s).1 h.1 in
      let e = fun_ext table in
      (
        ap (λ a. a ∷ (perform_all cs (perform c s).1).0) answer
            ∙ ap (λ l. (specified c (table_of s)).0 ∷ l)
                (answers ∙ ap (λ t. (specified_all cs t).0) e),
        tables ∙ ap (λ t. (specified_all cs t).1) e,
      )
