-- ===== src/Base/Dict/Unique.antt =====
-- A map has at most one entry for a key.
use spane.Base.Tests.{Bool-cases}
use spane.Base.Lists.{length}
use spane.Base.Dict.{Dict, get, put, remove, get-remove, get-put}
use Prim.Native.Nat.{suc, ◌≤◌}
use Prim.Native.String.{String}
use mathlib.Core.Path.{◌≡◌, refl}
use mathlib.Core.Logic.{◌≢◌, inl, inr}
use mathlib.Core.Option.{none}
use mathlib.Core.List.{[], ◌∷◌}
use native.Mathlib.Omega.{arith}
use text.Mathlib.Text.{◌==◌}
use text.Mathlib.TextEquality.{eq_iff}

module _ {ℓ} {V : Type ℓ} where
  abbrev pub Unique : Dict V → Type ℓ
  Unique [] = Unit
  Unique ((k, v) ∷ d) = (get d k ≡ none) × Unique d

  pub Unique-remove : (d : Dict V) (k : String) → Unique d → Unique (remove d k)
  unfolding remove
  Unique-remove [] k u = tt
  Unique-remove ((j, v) ∷ d) k u = elim (Bool-cases (j == k)) [
    | inl e ↦ rw e (Unique-remove d k u.1)
    | inr n ↦ rw n (ground (arith, get-remove d k j, u.0), Unique-remove d k u.1)
  ]

  pub Unique-put : (d : Dict V) (k : String) (v : V) → Unique d → Unique (put d k v)
  unfolding put get
  Unique-put [] k v u = (refl, tt)
  Unique-put ((j, w) ∷ d) k v u = elim (Bool-cases (j == k)) [
    | inl e ↦ rw e u
    | inr n ↦
        rw n (ground (arith, get-put d k v j, u.0, eq_iff j k, eq_iff k j), Unique-put d k v u.1)
  ]

  pub remove_absent : (d : Dict V) (k : String) → get d k ≡ none → remove d k ≡ d
  unfolding get remove
  remove_absent [] k h = refl
  remove_absent ((j, v) ∷ d) k h = ground (arith, remove_absent d k)

  pub length-remove :
      (d : Dict V) (k : String) → Unique d → get d k ≢ none → suc (length (remove d k)) ≡ length d
  unfolding get remove
  length-remove [] k u h = absurd (h refl)
  length-remove ((j, v) ∷ d) k u h = elim (Bool-cases (j == k)) [
    | inl e ↦ ground (arith, eq_iff j k, remove_absent d k, u.0)
    | inr n ↦ ground (arith, length-remove d k u.1)
  ]

  pub length-remove-le : (d : Dict V) (k : String) → length (remove d k) ≤ length d
  unfolding remove
  length-remove-le [] k = omega arith
  length-remove-le ((j, v) ∷ d) k = ground (arith, length-remove-le d k)

  pub length-put-le : (d : Dict V) (k : String) (v : V) → length (put d k v) ≤ suc (length d)
  unfolding put
  length-put-le [] k v = omega arith
  length-put-le ((j, w) ∷ d) k v = ground (arith, length-put-le d k v)

  pub length-put_found :
      (d : Dict V) (k : String) (v : V) → get d k ≢ none → length (put d k v) ≡ length d
  unfolding get put
  length-put_found [] k v h = absurd (h refl)
  length-put_found ((j, w) ∷ d) k v h = ground (arith, length-put_found d k v)

  pub length-put_new :
      (d : Dict V) (k : String) (v : V) → get d k ≡ none → length (put d k v) ≡ suc (length d)
  unfolding get put
  length-put_new [] k v h = refl
  length-put_new ((j, w) ∷ d) k v h = ground (arith, length-put_new d k v)
