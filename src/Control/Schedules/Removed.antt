-- ===== src/Control/Schedules/Removed.antt =====
-- src/engine/workflow-engine.ts: what removeWorkflowSchedulers leaves.
use Prim.Native.String
use text.Mathlib.Text.{starts_with}
use text.Mathlib.TextEquality.{starts_with_iff}
use text.Mathlib.TextPositions.{starts_with-append, len-append}
use text.Mathlib.TextLemmas.{append_assoc}
use spane.Base.{
  ℕ, suc, String, ◌≡◌, refl, sym, ◌∙◌, ap, inl, inr, true, false, Bool-cases, if_cases, Option,
  none, some, List, [], ◌∷◌, ◌==◌, ◌&&◌, if◌then◌else◌, arith, eq_iff,
}
use spane.Control.Schedules.{
  WorkflowQueue, lists, schedule_prefix, scheduler_id, is_matching, remove_matching,
  remove_workflow_schedulers,
}

no_prefix : (id : String) → starts_with "" (schedule_prefix id) ≡ false
no_prefix id = elim (Bool-cases (starts_with "" (schedule_prefix id))) [
  | inl h ↦
      let p = (starts_with_iff "" (schedule_prefix id)).0 h in
      let e = ap String.len p.1 in
      let outer = len-append (schedule_prefix id) p.0 in
      let inner = len-append "schedule:" (String.◌++◌ id ":") in absurd (omega arith)
  | inr h ↦ h
]

matched :
    (workflow_id id : String)
    → is_matching workflow_id id ≡ starts_with id (schedule_prefix workflow_id)
unfolding is_matching
matched w id = elim (Bool-cases (id == "")) [
  | inl e ↦
      rw e (sym (ap (λ i. starts_with i (schedule_prefix w)) ((eq_iff id "").0 e) ∙ no_prefix w))
  | inr e ↦ rw e refl
]

regrouped :
    (w rest cron : String)
    → scheduler_id (String.◌++◌ w (String.◌++◌ ":" rest)) cron
      ≡ String.◌++◌ (schedule_prefix w) (String.◌++◌ rest (String.◌++◌ ":" cron))
regrouped w rest cron = simp (append_assoc)

module _ (workflow_queue : WorkflowQueue) where
  open workflow_queue use {Schedulers, schedule_of, scheduler_ids, remove, removed}

  swept :
      (workflow_id : String) (ids : List (Option String)) (q : Schedulers) (n : ℕ) (k : String)
      → schedule_of (remove_matching workflow_queue workflow_id ids q n).1 k ≡ (
          if lists k ids
          then if starts_with k (schedule_prefix workflow_id) then none else schedule_of q k
          else schedule_of q k)
  unfolding remove_matching
  swept w [] q n k = refl
  swept w (none ∷ ids) q n k = swept w ids q n k
  swept w (some id ∷ ids) q n k = elim (Bool-cases (starts_with id (schedule_prefix w))) [
    | inl h ↦
        rw (matched w id, h, remove_matching)
          (swept w ids (remove id q) (suc n) k ∙ (elim (Bool-cases (id == k)) [
            | inl same ↦
                let start =
                  sym (ap (λ i. starts_with i (schedule_prefix w)) ((eq_iff id k).0 same)) ∙ h in
                rw (removed id q k, same)
                  (rw start
                    (if_cases (λ o. o ≡ none) (lists k ids) none none (λ _. refl) (λ _. refl)))
            | inr other ↦ rw (removed id q k, other) refl
          ]))
    | inr h ↦
        rw (matched w id, h, remove_matching)
          (swept w ids q n k ∙ (elim (Bool-cases (id == k)) [
            | inl same ↦
                let start =
                  sym (ap (λ i. starts_with i (schedule_prefix w)) ((eq_iff id k).0 same)) ∙ h in
                rw same (
                  rw start
                    (if_cases (λ o. o ≡ schedule_of q k) (lists k ids) _ _ (λ _. refl) (λ _. refl)))
            | inr other ↦ rw other refl
          ]))
  ]

  -- removeWorkflowSchedulers removes exactly the schedulers that the queue lists under an id that starts with
  -- `schedule:${workflowId}:`; every other scheduler is as it was, those included that the queue lists
  -- without an id.
  pub remove_workflow_schedulers_lem :
      (workflow_id : String) (q : Schedulers) (k : String)
      → schedule_of (remove_workflow_schedulers workflow_queue workflow_id q).1 k ≡ (
          if lists k (scheduler_ids q)
            && starts_with k (String.◌++◌ "schedule:" (String.◌++◌ workflow_id ":"))
          then none
          else schedule_of q k)
  unfolding remove_workflow_schedulers
  remove_workflow_schedulers_lem w q k =
      swept w (scheduler_ids q) q 0 k
      ∙ (elim (Bool-cases (lists k (scheduler_ids q))) [ inl e ↦ rw e refl | inr e ↦ rw e refl ])

  -- The schedulers of a workflow whose id continues the given id behind a colon, where the queue lists them
  -- under their ids, go as well, for every cron pattern.
  pub remove_workflow_schedulers_other :
      (workflow_id rest cron : String) (q : Schedulers)
      → lists (scheduler_id (String.◌++◌ workflow_id (String.◌++◌ ":" rest)) cron) (scheduler_ids q)
        ≡ true
      → schedule_of
          (remove_workflow_schedulers workflow_queue workflow_id q).1
          (scheduler_id (String.◌++◌ workflow_id (String.◌++◌ ":" rest)) cron)
        ≡ none
  remove_workflow_schedulers_other w rest cron q listed =
      let id = scheduler_id (String.◌++◌ w (String.◌++◌ ":" rest)) cron in
      let start : starts_with id (schedule_prefix w) ≡ true =
        ap (λ s. starts_with s (schedule_prefix w)) (regrouped w rest cron)
        ∙ starts_with-append (schedule_prefix w) (String.◌++◌ rest (String.◌++◌ ":" cron)) in
      remove_workflow_schedulers_lem w q id ∙ (rw (listed, start) refl)
