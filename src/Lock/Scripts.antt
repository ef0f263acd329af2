-- ===== src/Lock/Scripts.antt =====
-- src/utils/distributed-lock.ts: what the two scripts do to the keys.
use spane.Base.{
  ℕ, ◌<◌, String, ◌≡◌, refl, ◌∙◌, ap, inl, inr, Bool-cases, none, Option-cases, ◌==◌, if◌then◌else◌,
  eq_iff,
}
use spane.Lock.Commands.{Redis, is_present, holds, count_of}
use spane.Lock.{release_script, extend_script}

module _ (redis : Redis) where
  open redis use {Server, value_of, del_answer, del_value, pexpire_answer, pexpire_value}

  -- The script of release answers 1 exactly if the key is held under the token.
  pub release_script_answer :
      (k v : String) (s : Server)
      → (release_script redis k v s).0 ≡ count_of (holds (value_of s k) v)
  unfolding release_script
  release_script_answer k v s = elim (Option-cases (value_of s k)) [
    | inl e ↦ rw (e, release_script) refl
    | inr (u, e) ↦ elim (Bool-cases (u == v)) [
      | inl own ↦
          rw (e, release_script) (rw own (del_answer k s ∙ ap (λ o. count_of (is_present o)) e))
      | inr other ↦ rw (e, release_script) (rw other refl)
    ]
  ]

  -- It removes that key then, and changes no other.
  pub release_script_value :
      (k v : String) (s : Server) (j : String)
      → value_of (release_script redis k v s).1 j
        ≡ (if k == j then if holds (value_of s j) v then none else value_of s j else value_of s j)
  unfolding release_script
  release_script_value k v s j = elim (Bool-cases (k == j)) [
    | inl same ↦
        let here = ap (value_of s) ((eq_iff k j).0 same) in
        elim (Option-cases (value_of s j)) [
          | inl e ↦ rw (here ∙ e, release_script) (rw (same, e) refl)
          | inr (u, e) ↦ elim (Bool-cases (u == v)) [
            | inl own ↦
                rw (here ∙ e, release_script) (rw own (rw (del_value k s j, same, e) (rw own refl)))
            | inr other ↦ rw (here ∙ e, release_script) (rw other (rw (same, e) (rw other refl)))
          ]
        ]
    | inr apart ↦ elim (Option-cases (value_of s k)) [
      | inl e ↦ rw (e, release_script) (rw apart refl)
      | inr (u, e) ↦ elim (Bool-cases (u == v)) [
        | inl own ↦ rw (e, release_script) (rw own (rw (del_value k s j, apart) refl))
        | inr other ↦ rw (e, release_script) (rw other (rw apart refl))
      ]
    ]
  ]

  -- The script of extend answers 1 exactly if the key is held under the token.
  pub extend_script_answer :
      (k v : String) (ttl : ℕ) (s : Server)
      → (extend_script redis k v ttl s).0 ≡ count_of (holds (value_of s k) v)
  unfolding extend_script
  extend_script_answer k v ttl s = elim (Option-cases (value_of s k)) [
    | inl e ↦ rw (e, extend_script) refl
    | inr (u, e) ↦ elim (Bool-cases (u == v)) [
      | inl own ↦
          rw (e, extend_script)
            (rw own (pexpire_answer k ttl s ∙ ap (λ o. count_of (is_present o)) e))
      | inr other ↦ rw (e, extend_script) (rw other refl)
    ]
  ]

  -- It changes no value.
  pub extend_script_value :
      (k v : String) (ttl : ℕ) (s : Server) (j : String)
      → 0 < ttl
      → value_of (extend_script redis k v ttl s).1 j ≡ value_of s j
  unfolding extend_script
  extend_script_value k v ttl s j h = elim (Option-cases (value_of s k)) [
    | inl e ↦ rw (e, extend_script) refl
    | inr (u, e) ↦ elim (Bool-cases (u == v)) [
      | inl own ↦ rw (e, extend_script) (rw own (pexpire_value k ttl s j h))
      | inr other ↦ rw (e, extend_script) (rw other refl)
    ]
  ]
