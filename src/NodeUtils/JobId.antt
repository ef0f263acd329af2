-- ===== src/NodeUtils/JobId.antt =====
-- src/engine/node-utils.ts: generateNodeJobId.
use Prim.Native.String.{String, ◌++◌}
use text.Mathlib.TextLemmas.{append_cancel_left, append_cancel_right}
use spane.Base.{◌↔◌, ◌≡◌, ap, Option, none, some}

pub data DelayStep : Type 0 where
  initial resumed : DelayStep

unfoldable pub generate_node_job_id : String → String → Option DelayStep → String
generate_node_job_id execution_id node_id none = execution_id ++ ("-node-" ++ node_id)
generate_node_job_id execution_id node_id (some initial) = execution_id ++ ("-node-" ++ node_id)
generate_node_job_id execution_id node_id (some resumed) =
    execution_id ++ ("-node-" ++ (node_id ++ "-delay-resumed"))

-- Within an execution and for one delay step, nodes with different ids get different job ids.
pub generate_node_job_id-injective :
    (execution_id n m : String) (delay_step : Option DelayStep)
    → generate_node_job_id execution_id n delay_step
      ≡ generate_node_job_id execution_id m delay_step
    → n ≡ m
unfolding generate_node_job_id
generate_node_job_id-injective e n m none h =
    append_cancel_left "-node-" n m (append_cancel_left e ("-node-" ++ n) ("-node-" ++ m) h)
generate_node_job_id-injective e n m (some initial) h =
    append_cancel_left "-node-" n m (append_cancel_left e ("-node-" ++ n) ("-node-" ++ m) h)
generate_node_job_id-injective e n m (some resumed) h = append_cancel_right n m "-delay-resumed" (
    append_cancel_left "-node-" (n ++ "-delay-resumed") (m ++ "-delay-resumed") (
      append_cancel_left e ("-node-" ++ (n ++ "-delay-resumed"))
        ("-node-" ++ (m ++ "-delay-resumed")) h))

-- Two nodes of one execution can share a job id over the delay steps: the first job of a node `m` has
-- the job id of the resumed job of `n` exactly if `m` is `n` with "-delay-resumed" behind it.
pub generate_node_job_id_collision :
    (execution_id n m : String)
    → (generate_node_job_id execution_id m none
        ≡ generate_node_job_id execution_id n (some resumed))
      ↔ (m ≡ n ++ "-delay-resumed")
unfolding generate_node_job_id
generate_node_job_id_collision e n m = (
  λ h.
      append_cancel_left "-node-" m (n ++ "-delay-resumed")
        (append_cancel_left e ("-node-" ++ m) ("-node-" ++ (n ++ "-delay-resumed")) h),
  λ h. ap (λ x. e ++ ("-node-" ++ x)) h,
)
