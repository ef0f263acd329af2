-- ===== src/Metrics/Percentile.antt =====
-- src/utils/metrics.ts: calculatePercentile, with the arithmetic on doubles of Metrics/Double. A sample is a
-- whole number of milliseconds.
use spane.Base.{
  ℕ, zero, suc, ◌+◌, ◌-◌, ◌*◌, ◌≤◌, ◌<◌, ◌≡◌, refl, sym, subst, ap, inl, inr, true, Bool-cases, ltb,
  leb, List, [], ◌∷◌, length, if◌then◌else◌, arith,
}
use Prim.Native.Nat.{◌/◌}
use spane.Metrics.Double.{ceil_share, exact_share, is_reported, ceil_share-exact_share}

-- `[...values].sort((a, b) => a - b)`
unfoldable pub insert_sample : ℕ → List ℕ → List ℕ
insert_sample x [] = x ∷ []
insert_sample x (y ∷ ys) = if leb x y then x ∷ y ∷ ys else y ∷ insert_sample x ys

unfoldable pub sort_samples : List ℕ → List ℕ
unfolding insert_sample
sort_samples [] = []
sort_samples (x ∷ xs) = insert_sample x (sort_samples xs)

-- `array[i]!`
abbrev pub get_or : ℕ → List ℕ → ℕ → ℕ
get_or d [] i = d
get_or d (x ∷ xs) zero = x
get_or d (x ∷ xs) (suc i) = get_or d xs i

-- `Math.max(0, Math.ceil((percentile / 100) * n) - 1)`: `-` stops at 0
abbrev pub percentile_index : ℕ → ℕ → ℕ
percentile_index percentile n = ceil_share percentile n - 1

unfoldable pub calculate_percentile : List ℕ → ℕ → ℕ
unfolding sort_samples
calculate_percentile [] percentile = 0
calculate_percentile (x ∷ xs) percentile =
    get_or 0 (sort_samples (x ∷ xs)) (percentile_index percentile (length (sort_samples (x ∷ xs))))

-- how many samples are at most, or below, a value
abbrev pub count_at_most : ℕ → List ℕ → ℕ
count_at_most v [] = 0
count_at_most v (x ∷ xs) = (if leb x v then 1 else 0) + count_at_most v xs

abbrev pub count_below : ℕ → List ℕ → ℕ
count_below v [] = 0
count_below v (x ∷ xs) = (if ltb x v then 1 else 0) + count_below v xs

abbrev AllAtLeast : ℕ → List ℕ → Type 0
AllAtLeast a [] = Unit
AllAtLeast a (x ∷ xs) = (a ≤ x) × AllAtLeast a xs

abbrev Sorted : List ℕ → Type 0
Sorted [] = Unit
Sorted (x ∷ xs) = AllAtLeast x xs × Sorted xs

count_at_most-insert_sample :
    (v x : ℕ) (xs : List ℕ) → count_at_most v (insert_sample x xs) ≡ count_at_most v (x ∷ xs)
unfolding insert_sample
count_at_most-insert_sample v x [] = refl
count_at_most-insert_sample v x (y ∷ ys) = ground (arith, count_at_most-insert_sample v x ys)

count_below-insert_sample :
    (v x : ℕ) (xs : List ℕ) → count_below v (insert_sample x xs) ≡ count_below v (x ∷ xs)
unfolding insert_sample
count_below-insert_sample v x [] = refl
count_below-insert_sample v x (y ∷ ys) = ground (arith, count_below-insert_sample v x ys)

length-insert_sample : (x : ℕ) (xs : List ℕ) → length (insert_sample x xs) ≡ suc (length xs)
unfolding insert_sample
length-insert_sample x [] = refl
length-insert_sample x (y ∷ ys) = ground (arith, length-insert_sample x ys)

AllAtLeast-le : (a b : ℕ) (xs : List ℕ) → a ≤ b → AllAtLeast b xs → AllAtLeast a xs
AllAtLeast-le a b [] h all = tt
AllAtLeast-le a b (x ∷ xs) h all = (omega arith, AllAtLeast-le a b xs h all.1)

AllAtLeast-insert_sample :
    (a x : ℕ) (xs : List ℕ) → a ≤ x → AllAtLeast a xs → AllAtLeast a (insert_sample x xs)
unfolding insert_sample
AllAtLeast-insert_sample a x [] h all = (h, tt)
AllAtLeast-insert_sample a x (y ∷ ys) h all = elim (Bool-cases (leb x y)) [
  | inl le ↦ rw le (h, all)
  | inr gt ↦ rw gt (all.0, AllAtLeast-insert_sample a x ys h all.1)
]

insert_sample-Sorted : (x : ℕ) (xs : List ℕ) → Sorted xs → Sorted (insert_sample x xs)
unfolding insert_sample
insert_sample-Sorted x [] s = (tt, tt)
insert_sample-Sorted x (y ∷ ys) s = elim (Bool-cases (leb x y)) [
  | inl le ↦ rw le ((ground arith, AllAtLeast-le x y ys (ground arith) s.0), s)
  | inr gt ↦
      rw gt (AllAtLeast-insert_sample y x ys (ground arith) s.0, insert_sample-Sorted x ys s.1)
]

sort_samples-Sorted : (xs : List ℕ) → Sorted (sort_samples xs)
unfolding sort_samples
sort_samples-Sorted [] = tt
sort_samples-Sorted (x ∷ xs) = insert_sample-Sorted x (sort_samples xs) (sort_samples-Sorted xs)

count_at_most-sort_samples :
    (v : ℕ) (xs : List ℕ) → count_at_most v (sort_samples xs) ≡ count_at_most v xs
unfolding sort_samples
count_at_most-sort_samples v [] = refl
count_at_most-sort_samples v (x ∷ xs) =
    omega
      (arith, count_at_most-insert_sample v x (sort_samples xs), count_at_most-sort_samples v xs)

count_below-sort_samples :
    (v : ℕ) (xs : List ℕ) → count_below v (sort_samples xs) ≡ count_below v xs
unfolding sort_samples
count_below-sort_samples v [] = refl
count_below-sort_samples v (x ∷ xs) =
    omega (arith, count_below-insert_sample v x (sort_samples xs), count_below-sort_samples v xs)

length-sort_samples : (xs : List ℕ) → length (sort_samples xs) ≡ length xs
unfolding sort_samples
length-sort_samples [] = refl
length-sort_samples (x ∷ xs) =
    omega (arith, length-insert_sample x (sort_samples xs), length-sort_samples xs)

AllAtLeast-get_or :
    (a : ℕ) (xs : List ℕ) (i : ℕ) → i < length xs → AllAtLeast a xs → a ≤ get_or 0 xs i
AllAtLeast-get_or a [] i h all = absurd (omega arith)
AllAtLeast-get_or a (x ∷ xs) zero h all = all.0
AllAtLeast-get_or a (x ∷ xs) (suc i) h all = AllAtLeast-get_or a xs i (omega arith) all.1

none_below : (a : ℕ) (xs : List ℕ) → AllAtLeast a xs → count_below a xs ≡ 0
none_below a [] all = refl
none_below a (x ∷ xs) all = ground (arith, none_below a xs)

count_below-get_or :
    (xs : List ℕ) (i : ℕ) → Sorted xs → i < length xs → count_below (get_or 0 xs i) xs ≤ i
count_below-get_or [] i s h = absurd (omega arith)
count_below-get_or (x ∷ xs) zero s h = ground (arith, none_below x xs)
count_below-get_or (x ∷ xs) (suc i) s h = ground (arith, count_below-get_or xs i)

count_at_most-get_or :
    (xs : List ℕ) (i : ℕ) → Sorted xs → i < length xs → i < count_at_most (get_or 0 xs i) xs
count_at_most-get_or [] i s h = absurd (omega arith)
count_at_most-get_or (x ∷ xs) zero s h = ground arith
count_at_most-get_or (x ∷ xs) (suc i) s h =
    ground (arith, count_at_most-get_or xs i, AllAtLeast-get_or x xs i)

index_of :
    (t n : ℕ)
    → 0 < t
    → t ≤ 100 * n
    → ((t + 99) / 100 - 1 < n)
      × (t ≤ 100 * ((t + 99) / 100 - 1 + 1))
      × (100 * ((t + 99) / 100 - 1) < t)
index_of t n h k = omega arith

product_bounds : (p n : ℕ) → 0 < p → p ≤ 100 → 0 < n → (0 < p * n) × (p * n ≤ 100 * n)
product_bounds p n h k m = grind arith

rank_of :
    (samples s : List ℕ) (p : ℕ)
    → Sorted s
    → length s ≡ length samples
    → ((v : ℕ) → count_at_most v s ≡ count_at_most v samples)
    → ((v : ℕ) → count_below v s ≡ count_below v samples)
    → 0 < p
    → p ≤ 100
    → 0 < length samples
    → (let v = get_or 0 s (exact_share p (length s) - 1) in
        (p * length samples ≤ 100 * count_at_most v samples)
        × (100 * count_below v samples < p * length samples))
rank_of samples s p sorted size at_most below h k m =
    let i = exact_share p (length s) - 1 in
    let v = get_or 0 s i in
    let t = product_bounds p (length s) h k (omega arith) in
    let b = index_of (p * length s) (length s) t.0 t.1 in
    let lo = count_below-get_or s i sorted b.0 in
    let hi = count_at_most-get_or s i sorted b.0 in
    let e = ap (λ (n : ℕ). p * n) size in (omega (arith, at_most v), omega (arith, below v))

reported_bounds : (p : ℕ) → is_reported p ≡ true → (0 < p) × (p ≤ 100)
reported_bounds p h = (ground arith, ground arith)

-- For each of the percentiles of the reports (50, 90, 95 and 99) and for 1 to 1000 samples, which is as many
-- as a histogram keeps, the result is the nearest-rank percentile, rounding of the source's numbers
-- included: with p the percentile, at least p hundredths of the samples are at most the result, and fewer
-- than p hundredths of them are below it.
pub calculate_percentile_rank :
    (samples : List ℕ) (p : ℕ)
    → is_reported p ≡ true
    → 0 < length samples
    → length samples ≤ 1000
    → (p * length samples ≤ 100 * count_at_most (calculate_percentile samples p) samples)
      × (100 * count_below (calculate_percentile samples p) samples < p * length samples)
unfolding calculate_percentile
calculate_percentile_rank [] p h m le = absurd (omega arith)
calculate_percentile_rank (x ∷ xs) p h m le =
    let samples = x ∷ xs in
    let size = length-sort_samples samples in
    let exact =
      ceil_share-exact_share p (length (sort_samples samples)) h (omega arith) (omega arith) in
    let (positive, small) = reported_bounds p h in
    subst
      (λ (c : ℕ).
        (p * length samples ≤ 100 * count_at_most (get_or 0 (sort_samples samples) (c - 1)) samples)
        × (100 * count_below (get_or 0 (sort_samples samples) (c - 1)) samples
            < p * length samples))
      (sym exact)
      (rank_of samples (sort_samples samples) p (sort_samples-Sorted samples) size
        (λ v. count_at_most-sort_samples v samples) (λ v. count_below-sort_samples v samples)
        positive small m)
