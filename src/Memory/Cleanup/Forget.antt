-- ===== src/Memory/Cleanup/Forget.antt =====
-- src/db/inmemory-store.ts: the entries that `forget_all` removes.
use spane.Base.{◌≤◌, String, ◌≡◌, refl, none, List, [], ◌∷◌, has, length, arith, if◌then◌else◌}
use spane.Base.Dict.{get, get-remove}
use spane.Base.Dict.Unique.{Unique, Unique-remove, length-remove-le}
use spane.Memory.State.{Store}
use spane.Memory.Cleanup.{forget, forget_all}

-- An entry of any of the maps stays exactly if its id is not listed.
pub get-forget_all :
    (ids : List String) (s : Store) (j : String)
    → get (forget_all ids s).executions j ≡ (if has ids j then none else get s.executions j)
unfolding forget_all has
get-forget_all [] s j = refl
get-forget_all (id ∷ ids) s j =
    ground (arith, get-forget_all ids (forget s id) j, get-remove s.executions id j)

pub get-logs-forget_all :
    (ids : List String) (s : Store) (j : String)
    → get (forget_all ids s).logs j ≡ (if has ids j then none else get s.logs j)
unfolding forget_all has
get-logs-forget_all [] s j = refl
get-logs-forget_all (id ∷ ids) s j =
    ground (arith, get-logs-forget_all ids (forget s id) j, get-remove s.logs id j)

pub get-traces-forget_all :
    (ids : List String) (s : Store) (j : String)
    → get (forget_all ids s).traces j ≡ (if has ids j then none else get s.traces j)
unfolding forget_all has
get-traces-forget_all [] s j = refl
get-traces-forget_all (id ∷ ids) s j =
    ground (arith, get-traces-forget_all ids (forget s id) j, get-remove s.traces id j)

pub config-forget_all : (ids : List String) (s : Store) → (forget_all ids s).config ≡ s.config
unfolding forget_all
config-forget_all [] s = refl
config-forget_all (id ∷ ids) s = config-forget_all ids (forget s id)

pub Unique-forget_all :
    (ids : List String) (s : Store) → Unique s.executions → Unique (forget_all ids s).executions
unfolding forget_all
Unique-forget_all [] s u = u
Unique-forget_all (id ∷ ids) s u =
    Unique-forget_all ids (forget s id) (Unique-remove s.executions id u)

pub length-forget_all-le :
    (ids : List String) (s : Store) → length (forget_all ids s).executions ≤ length s.executions
unfolding forget_all
length-forget_all-le [] s = omega arith
length-forget_all-le (id ∷ ids) s =
    omega (arith, length-forget_all-le ids (forget s id), length-remove-le s.executions id)
