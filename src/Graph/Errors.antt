-- ===== src/Graph/Errors.antt =====
-- src/engine/graph-validation.ts: the validation errors.
use Prim.Native.String
use spane.Base.{String, Bool, Option, List, [], ◌∷◌}

pub data ValidationErrorType : Type 0 where
  cycle orphan unreachable missing_ref duplicate_id no_entry_node : ValidationErrorType

pub data Severity : Type 0 where
  error warning : Severity

pub record ValidationError : Type 0 where
  pub type : ValidationErrorType
  pub message : String
  pub node_ids : Option (List String)
  pub severity : Severity

pub record ValidationResult : Type 0 where
  pub valid : Bool
  pub errors : List ValidationError

-- `array.join(sep)`
unfoldable pub join : String → List String → String
join sep [] = ""
join sep (x ∷ []) = x
join sep (x ∷ y ∷ ys) = String.◌++◌ x (String.◌++◌ sep (join sep (y ∷ ys)))
