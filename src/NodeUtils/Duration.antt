-- ===== src/NodeUtils/Duration.antt =====
-- src/engine/node-utils.ts: resolveDuration and validateDuration.
use spane.Base.{
  ℕ, ◌<◌, ◌*◌, String, ◌≡◌, refl, ◌↔◌, Bool, true, false, Option, none, some, arith, if◌then◌else◌,
}
use spane.Base.Int.{ℤ, pos, negsuc, is_negative, exceeds, scale}
use spane.Types.Json.{Value, Fields, num, undefined, get_field}

-- `typeof value === 'number'`
unfoldable pub as_number : Value → Option ℤ
as_number (num z) = some z
as_number undefined = none
as_number _ = none

-- the first of the three that is a number
abbrev pub first_number : Option ℤ → Option ℤ → Option ℤ → Option ℤ
first_number (some ms) seconds minutes = some ms
first_number none (some s) minutes = some (scale s 1000)
first_number none none (some m) = some (scale m 60000)
first_number none none none = none

unfoldable pub resolve_duration : Option Fields → Option ℤ
resolve_duration none = none
resolve_duration (some config) =
    first_number (as_number (get_field config "duration"))
      (as_number (get_field config "durationSeconds"))
      (as_number (get_field config "durationMinutes"))

-- `warning` holds the duration that the text of the warning prints
pub record DurationCheck : Type 0 where
  pub valid : Bool
  pub error : Option String
  pub warning : Option ℤ

abbrev pub one_day_ms : ℕ
one_day_ms = 24 * 60 * 60 * 1000

unfoldable pub validate_duration : Option ℤ → DurationCheck
validate_duration none = record {
  valid = false;
  error = some "Delay node missing duration configuration";
  warning = none;
}
validate_duration (some d) =
    if is_negative d
    then record { valid = false; error = some "Delay duration must be positive"; warning = none }
    else if exceeds d one_day_ms
    then record { valid = true; error = none; warning = some d }
    else record { valid = true; error = none; warning = none }

-- A duration passes exactly if it is a number of at least 0.
pub validate_duration-valid_iff :
    (o : Option ℤ) → ((validate_duration o).valid ≡ true) ↔ ((n : ℕ) × (o ≡ some (pos n)))
unfolding validate_duration
validate_duration-valid_iff none = (λ h. cc, λ (n, h). cc)
validate_duration-valid_iff (some (pos n)) = (λ h. (n, refl), λ h. ground arith)
validate_duration-valid_iff (some (negsuc n)) = (λ h. cc, λ (m, h). cc)

-- A check that fails carries an error, and one that passes carries none; a warning is given exactly for
-- the durations above 24 hours.
pub validate_duration_messages :
    (o : Option ℤ)
    → (((validate_duration o).valid ≡ true) ↔ ((validate_duration o).error ≡ none))
      × (((n : ℕ) × (o ≡ some (pos n)) × (one_day_ms < n))
          ↔ ((d : ℤ) × ((validate_duration o).warning ≡ some d)))
unfolding validate_duration
validate_duration_messages none = (ground arith, (λ (n, h, k). cc, λ (d, h). cc))
validate_duration_messages (some (negsuc n)) = (ground arith, (λ (m, h, k). cc, λ (d, h). cc))
validate_duration_messages (some (pos n)) =
    (ground arith, (λ (m, h, k). (pos n, ground arith), λ (d, h). (n, refl, ground arith)))
