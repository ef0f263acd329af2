-- ===== src/Metrics/Histogram.antt =====
-- src/utils/metrics.ts: what the histograms hold after a run of observations.
use spane.Base.{
  ℕ, zero, suc, ◌-◌, ◌≤◌, ◌≡◌, refl, inl, inr, Bool-cases, ltb, List, [], ◌∷◌, ◌++◌, length,
  length-append, append_assoc, append-nil, ◌∙◌, ap, arith,
}
use spane.Memory.Cleanup.{drop}
use spane.Memory.Bounds.Trimmed.{length-drop}
use spane.Metrics.{
  MetricsData, no_metrics, max_histogram_size, shift, observe, observe_workflow_duration,
  observe_node_duration, observe_queue_wait_time,
}

pub data Observation : Type 0 where
  workflow_duration node_duration queue_wait_time : ℕ → Observation

abbrev pub observe_one : Observation → MetricsData → MetricsData
observe_one (workflow_duration d) m = observe_workflow_duration d m
observe_one (node_duration d) m = observe_node_duration d m
observe_one (queue_wait_time d) m = observe_queue_wait_time d m

-- the observations of a run, one after the other
unfoldable pub observe_run : List Observation → MetricsData → MetricsData
observe_run [] m = m
observe_run (o ∷ os) m = observe_run os (observe_one o m)

-- the samples of a run, for each histogram
abbrev pub workflow_durations : List Observation → List ℕ
workflow_durations [] = []
workflow_durations (workflow_duration d ∷ os) = d ∷ workflow_durations os
workflow_durations (node_duration d ∷ os) = workflow_durations os
workflow_durations (queue_wait_time d ∷ os) = workflow_durations os

abbrev pub node_durations : List Observation → List ℕ
node_durations [] = []
node_durations (workflow_duration d ∷ os) = node_durations os
node_durations (node_duration d ∷ os) = d ∷ node_durations os
node_durations (queue_wait_time d ∷ os) = node_durations os

abbrev pub queue_wait_times : List Observation → List ℕ
queue_wait_times [] = []
queue_wait_times (workflow_duration d ∷ os) = queue_wait_times os
queue_wait_times (node_duration d ∷ os) = queue_wait_times os
queue_wait_times (queue_wait_time d ∷ os) = d ∷ queue_wait_times os

-- the last 1000 samples
abbrev pub latest : List ℕ → List ℕ
latest xs = drop (length xs - max_histogram_size) xs

drop-append : (n : ℕ) (xs ys : List ℕ) → n ≤ length xs → drop n xs ++ ys ≡ drop n (xs ++ ys)
drop-append zero xs ys h = refl
drop-append (suc n) [] ys h = absurd (omega arith)
drop-append (suc n) (x ∷ xs) ys h = drop-append n xs ys (omega arith)

shift-drop : (n : ℕ) (xs : List ℕ) → shift (drop n xs) ≡ drop (suc n) xs
shift-drop zero [] = refl
shift-drop zero (x ∷ xs) = refl
shift-drop (suc n) [] = refl
shift-drop (suc n) (x ∷ xs) = shift-drop n xs

observe-latest : (xs : List ℕ) (x : ℕ) → observe (latest xs) x ≡ latest (xs ++ x ∷ [])
unfolding observe
observe-latest xs x =
    let n = length xs - 1000 in
    let kept = length-drop n xs in
    let longer = length-append xs (x ∷ []) in
    let longer' = length-append (drop n xs) (x ∷ []) in
    elim (Bool-cases (ltb 1000 (length (drop n xs ++ x ∷ [])))) [
      | inl full ↦ rw full (
          ap shift (drop-append n xs (x ∷ []) (omega arith))
          ∙ shift-drop n (xs ++ x ∷ [])
          ∙ (let e : suc n ≡ length (xs ++ x ∷ []) - 1000 = ground arith in
              ap (λ m. drop m (xs ++ x ∷ [])) e))
      | inr room ↦ rw room (
          drop-append n xs (x ∷ []) (omega arith)
          ∙ (let e : n ≡ length (xs ++ x ∷ []) - 1000 = ground arith in
              ap (λ m. drop m (xs ++ x ∷ [])) e))
    ]

-- what each histogram holds that starts with the latest of some samples
observed :
    (os : List Observation) (a b c : List ℕ) (m : MetricsData)
    → m.workflow_duration_ms ≡ latest a
    → m.node_duration_ms ≡ latest b
    → m.queue_wait_time_ms ≡ latest c
    → ((observe_run os m).workflow_duration_ms ≡ latest (a ++ workflow_durations os))
      × ((observe_run os m).node_duration_ms ≡ latest (b ++ node_durations os))
      × ((observe_run os m).queue_wait_time_ms ≡ latest (c ++ queue_wait_times os))
unfolding observe_run observe_workflow_duration observe_node_duration observe_queue_wait_time
observed [] a b c m p q r = simp (append-nil) (p, q, r)
observed (workflow_duration d ∷ os) a b c m p q r =
    let (p', q', r') =
      observed os (a ++ d ∷ []) b c (observe_workflow_duration d m)
        (ap (λ l. observe l d) p ∙ observe-latest a d) q r in
    (p' ∙ ap latest (append_assoc a (d ∷ []) (workflow_durations os)), q', r')
observed (node_duration d ∷ os) a b c m p q r =
    let (p', q', r') =
      observed os a (b ++ d ∷ []) c (observe_node_duration d m) p
        (ap (λ l. observe l d) q ∙ observe-latest b d) r in
    (p', q' ∙ ap latest (append_assoc b (d ∷ []) (node_durations os)), r')
observed (queue_wait_time d ∷ os) a b c m p q r =
    let (p', q', r') =
      observed os a b (c ++ d ∷ []) (observe_queue_wait_time d m) p q
        (ap (λ l. observe l d) r ∙ observe-latest c d) in
    (p', q', r' ∙ ap latest (append_assoc c (d ∷ []) (queue_wait_times os)))

-- After any run of observations, in any order, each histogram of a new collector holds exactly the last
-- 1000 of its samples, or all of them if there are fewer, in their order.
pub observe_run-latest :
    (os : List Observation)
    → ((observe_run os no_metrics).workflow_duration_ms ≡ latest (workflow_durations os))
      × ((observe_run os no_metrics).node_duration_ms ≡ latest (node_durations os))
      × ((observe_run os no_metrics).queue_wait_time_ms ≡ latest (queue_wait_times os))
observe_run-latest os = observed os [] [] [] no_metrics refl refl refl
