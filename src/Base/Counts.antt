-- ===== src/Base/Counts.antt =====
-- How many entries of a list of ids a set does not hold yet: the measure of the graph searches.
use Prim.Native.Nat.{ℕ, suc, ◌≤◌, ◌<◌}
use Prim.Native.String.{String}
use mathlib.Core.Path.{◌≡◌}
use mathlib.Core.Logic.{inl, inr}
use mathlib.Core.Bool.{true, false}
use mathlib.Core.List.{List, [], ◌∷◌}
use native.Mathlib.Omega.{arith}
use text.Mathlib.Text.{◌==◌}
use text.Mathlib.TextEquality.{eq_iff}
use spane.Base.Lists.{length}
use spane.Base.Tests.{if◌then◌else◌, Bool-cases}
use spane.Base.Sets.{has, add, has-add}

pub missing : List String → List String → ℕ
missing [] v = 0
missing (x ∷ xs) v = let rest = missing xs v in if has v x then rest else suc rest

abbrev pub Subset : List String → List String → Type 0
Subset v v' = (u : String) → has v u ≡ true → has v' u ≡ true

pub missing-le : (xs v : List String) → missing xs v ≤ length xs
unfolding missing
missing-le [] v = omega arith
missing-le (x ∷ xs) v = ground (arith, missing-le xs v)

pub missing-Subset : (xs v v' : List String) → Subset v v' → missing xs v' ≤ missing xs v
unfolding missing
missing-Subset [] v v' h = omega arith
missing-Subset (x ∷ xs) v v' h = ground (arith, missing-Subset xs v v' h, h x)

pub Subset-add : (v : List String) (x : String) → Subset v (add v x)
Subset-add v x u h = ground (arith, has-add v x u)

pub missing-add :
    (xs v : List String) (x : String)
    → has v x ≡ false
    → has xs x ≡ true
    → missing xs (add v x) < missing xs v
unfolding missing has
missing-add [] v x h m = cc
missing-add (y ∷ xs) v x h m = elim (Bool-cases (y == x)) [
  | inl e ↦
      ground (
        arith,
        eq_iff y x,
        has-add v x y,
        eq_iff x y,
        missing-Subset xs v (add v x) (Subset-add v x),
      )
  | inr n ↦ ground (arith, has-add v x y, eq_iff x y, eq_iff y x, missing-add xs v x)
]
