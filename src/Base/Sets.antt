-- ===== src/Base/Sets.antt =====
-- A JavaScript `Set` of strings: its elements in the order of insertion.
use Prim.Native.String.{String}
use mathlib.Core.Path.{◌≡◌, refl}
use mathlib.Core.Logic.{◌⊎◌, inl, inr}
use mathlib.Core.Bool.{Bool, true, false, ◌||◌}
use mathlib.Core.List.{List, [], ◌∷◌, ◌++◌}
use native.Mathlib.Omega.{arith}
use text.Mathlib.Text.{◌==◌}
use text.Mathlib.TextEquality.{eq_iff}
use spane.Base.Tests.{if◌then◌else◌, Bool-cases}

-- `set.has(x)`, `array.includes(x)`
unfoldable pub has : List String → String → Bool
has [] x = false
has (y ∷ ys) x = y == x || has ys x

-- `set.add(x)`
unfoldable pub add : List String → String → List String
add xs x = if has xs x then xs else xs ++ x ∷ []

-- `set.delete(x)`
unfoldable pub delete : List String → String → List String
delete [] x = []
delete (y ∷ ys) x = let rest = delete ys x in if y == x then rest else y ∷ rest

pub has-append : (xs ys : List String) (x : String) → has (xs ++ ys) x ≡ (has xs x || has ys x)
unfolding has
has-append [] ys x = refl
has-append (y ∷ xs) ys x = ground (arith, has-append xs ys x)

pub has-snoc : (xs : List String) (y x : String) → has (xs ++ y ∷ []) x ≡ (has xs x || (y == x))
unfolding has
has-snoc [] y x = ground arith
has-snoc (z ∷ xs) y x = ground (arith, has-snoc xs y x)

pub has-add : (xs : List String) (y x : String) → has (add xs y) x ≡ (has xs x || (y == x))
unfolding add
has-add xs y x = ground (arith, has-snoc xs y x, eq_iff y x)

-- Deleting the element that was just added gives the set back.
pub delete_absent : (xs : List String) (x : String) → has xs x ≡ false → delete xs x ≡ xs
unfolding has delete
delete_absent [] x h = refl
delete_absent (y ∷ ys) x h = ground (arith, delete_absent ys x)

pub delete-snoc : (xs : List String) (x : String) → has xs x ≡ false → delete (xs ++ x ∷ []) x ≡ xs
unfolding has delete
delete-snoc [] x h = ground (arith, eq_iff x x)
delete-snoc (y ∷ ys) x h = ground (arith, delete-snoc ys x)

pub has-cons :
    (y : String) (ys : List String) (x : String)
    → has (y ∷ ys) x ≡ true
    → (y ≡ x) ⊎ (has ys x ≡ true)
unfolding has
has-cons y ys x h = ground (arith, eq_iff y x)

pub delete-add : (xs : List String) (x : String) → has xs x ≡ false → delete (add xs x) x ≡ xs
unfolding add
delete-add xs x h = rw h (delete-snoc xs x h)

pub eq_cases : (x y : String) → (x ≡ y) ⊎ ((x == y) ≡ false)
eq_cases x y = elim (Bool-cases (x == y)) [ inl e ↦ inl ((eq_iff x y).0 e) | inr n ↦ inr n ]
