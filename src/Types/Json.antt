-- ===== src/Types/Json.antt =====
-- The values of type `unknown` and `any` that the program passes on: node configurations, input
-- and output data. A property that is not there reads as `undefined`. An array stands as the object
-- of its indices, without its `length`; a number is an integer.
use spane.Base.{zero, String, Bool, true, false, ◌≡◌, refl, arith, eq_iff, ◌==◌, if◌then◌else◌}
use spane.Base.Int.{ℤ, pos}

mutual
  pub data Value : Type 0 where
    undefined null : Value
    bool : Bool → Value
    num : ℤ → Value
    str : String → Value
    obj : Fields → Value

  pub data Fields : Type 0 where
    end : Fields
    field : String → Value → Fields → Fields

-- `object[key]` on the entries of an object
unfoldable pub get_field : Fields → String → Value
get_field end k = undefined
get_field (field j v fs) k = if j == k then v else get_field fs k

-- `key in object`
unfoldable pub has_field : Fields → String → Bool
has_field end k = false
has_field (field j v fs) k = if j == k then true else has_field fs k

-- `object[key] = value`
unfoldable pub put_field : Fields → String → Value → Fields
put_field end k v = field k v end
put_field (field j w fs) k v = if j == k then field j v fs else field j w (put_field fs k v)

-- `value?.key`, for a key that no string, number or array has
unfoldable pub prop : Value → String → Value
prop (obj fs) k = get_field fs k
prop undefined k = undefined
prop _ k = undefined

-- `value !== undefined`
unfoldable pub is_defined : Value → Bool
is_defined undefined = false
is_defined _ = true

pub get_field-put_field :
    (fs : Fields) (k : String) (v : Value) (j : String)
    → get_field (put_field fs k v) j ≡ (if k == j then v else get_field fs j)
unfolding get_field put_field
get_field-put_field end k v j = refl
get_field-put_field (field i w fs) k v j =
    ground (arith, get_field-put_field fs k v j, eq_iff i k, eq_iff i j, eq_iff k j)

pub has_field-put_field :
    (fs : Fields) (k : String) (v : Value) (j : String)
    → has_field (put_field fs k v) j ≡ (if k == j then true else has_field fs j)
unfolding has_field put_field
has_field-put_field end k v j = refl
has_field-put_field (field i w fs) k v j =
    ground (arith, has_field-put_field fs k v j, eq_iff i k, eq_iff i j, eq_iff k j)

-- what a JavaScript condition takes for true
unfoldable pub is_truthy : Value → Bool
is_truthy undefined = false
is_truthy null = false
is_truthy (bool b) = b
is_truthy (num (pos zero)) = false
is_truthy (num _) = true
is_truthy (str s) = if s == "" then false else true
is_truthy (obj fs) = true
