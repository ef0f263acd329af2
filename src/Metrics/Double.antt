-- ===== src/Metrics/Double.antt =====
-- src/utils/metrics.ts: the arithmetic of calculatePercentile. A number of the source is an IEEE 754 double:
-- a significand below 2 ^ 53 over a power of 2, rounded to the nearest, and to the even one of two.
use spane.Base.{
  ℕ, zero, suc, ◌+◌, ◌-◌, ◌*◌, ◌≤◌, ◌<◌, ◌≡◌, refl, sym, subst, inl, inr, Bool, true, Bool-cases,
  ltb, leb, eqb, ◌&&◌, ◌||◌, if◌then◌else◌, arith,
}
use Prim.Native.Nat.{◌/◌, ◌%◌, ◌^◌}

-- a / b, rounded
abbrev pub nearest : ℕ → ℕ → ℕ
nearest a b =
    let q = a / b in
    let r = a % b in if ltb (r * 2) b then q else if ltb b (r * 2) then q + 1 else q + q % 2

-- the least exponent from `e` on, with which a / b has a significand of 53 bits
unfoldable pub exponent : ℕ → ℕ → ℕ → ℕ → ℕ
exponent zero a b e = e
exponent (suc fuel) a b e =
    let more = exponent fuel a b (e + 1) in if leb (b * 2 ^ 52) (a * 2 ^ e) then e else more

-- by how many bits a product is too long
unfoldable pub excess : ℕ → ℕ → ℕ → ℕ
excess zero t s = s
excess (suc fuel) t s = let more = excess fuel t (s + 1) in if ltb t (2 ^ (53 + s)) then s else more

-- `Math.ceil((percentile / 100) * n)`, for a percentile from 1 to 100 and n below 2 ^ 32
unfoldable pub ceil_share : ℕ → ℕ → ℕ
unfolding exponent excess
ceil_share percentile n =
    let e = exponent 7 percentile 100 52 in
    let t = nearest (percentile * 2 ^ e) 100 * n in
    let s = excess 33 t 0 in (nearest t (2 ^ s) * 2 ^ s + (2 ^ e - 1)) / 2 ^ e

-- on integers
abbrev pub exact_share : ℕ → ℕ → ℕ
exact_share percentile n = (percentile * n + 99) / 100

-- two functions agree from 1 to n
abbrev agree : (ℕ → ℕ) → (ℕ → ℕ) → ℕ → Bool
agree f g zero = true
agree f g (suc n) = eqb (f (suc n)) (g (suc n)) && agree f g n

agree_at : (f g : ℕ → ℕ) (k n : ℕ) → agree f g k ≡ true → 0 < n → n ≤ k → f n ≡ g n
agree_at f g zero n h m le = absurd (omega arith)
agree_at f g (suc k) n h m le = elim (Bool-cases (eqb n (suc k))) [
  | inl last ↦
      let same : n ≡ suc k = ground arith in subst (λ x. f x ≡ g x) (sym same) (ground arith)
  | inr early ↦ agree_at f g k n (ground arith) m (ground arith)
]

abbrev all_exact : ℕ → ℕ → Bool
all_exact p k = agree (ceil_share p) (exact_share p) k

exact_50 : all_exact 50 1000 ≡ true
unfolding ceil_share exponent excess
exact_50 = refl

exact_90 : all_exact 90 1000 ≡ true
unfolding ceil_share exponent excess
exact_90 = refl

exact_95 : all_exact 95 1000 ≡ true
unfolding ceil_share exponent excess
exact_95 = refl

exact_99 : all_exact 99 1000 ≡ true
unfolding ceil_share exponent excess
exact_99 = refl

-- the percentiles of the reports
abbrev pub is_reported : ℕ → Bool
is_reported p = eqb p 50 || eqb p 90 || eqb p 95 || eqb p 99

all_reported : (p : ℕ) → is_reported p ≡ true → all_exact p 1000 ≡ true
all_reported p h = elim (Bool-cases (eqb p 50)) [
  | inl a ↦ let e : p ≡ 50 = ground arith in subst (λ x. all_exact x 1000 ≡ true) (sym e) exact_50
  | inr na ↦ elim (Bool-cases (eqb p 90)) [
    | inl b ↦ let e : p ≡ 90 = ground arith in subst (λ x. all_exact x 1000 ≡ true) (sym e) exact_90
    | inr nb ↦ elim (Bool-cases (eqb p 95)) [
      | inl c ↦
          let e : p ≡ 95 = ground arith in subst (λ x. all_exact x 1000 ≡ true) (sym e) exact_95
      | inr nc ↦
          let e : p ≡ 99 = ground arith in subst (λ x. all_exact x 1000 ≡ true) (sym e) exact_99
    ]
  ]
]

-- For the percentiles of the reports and up to 1000 samples, rounding does not change the product's ceiling.
pub ceil_share-exact_share :
    (p n : ℕ) → is_reported p ≡ true → 0 < n → n ≤ 1000 → ceil_share p n ≡ exact_share p n
ceil_share-exact_share p n h m le =
    agree_at (ceil_share p) (exact_share p) 1000 n (all_reported p h) m le
