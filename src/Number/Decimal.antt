-- ===== src/Number/Decimal.antt =====
-- Parsing and printing decimal numbers, parse_u128 and show_ℕ.
use Prim.Native.Char.{code}
use Prim.Native.String.{[], ◌∷◌}
use ai_wallet.Prelude.{
  ℕ, zero, suc, ◌+◌, ◌*◌, ◌/◌, ◌%◌, ◌<◌, ◌≡◌, refl, String, some, arith, ltb, Bool-cases, ◌∙◌,
  Option-cases, inl, inr,
}
use ai_wallet.Number.{
  u128_bound, to_digit, scan, scan_some, parse_u128, digit_char, show_from, show_ℕ,
}

pub code-digit_char : (d : ℕ) → d < 10 → code (digit_char d) ≡ d + 48
code-digit_char zero h = refl
code-digit_char (suc zero) h = refl
code-digit_char (suc (suc zero)) h = refl
code-digit_char (suc (suc (suc zero))) h = refl
code-digit_char (suc (suc (suc (suc zero)))) h = refl
code-digit_char (suc (suc (suc (suc (suc zero))))) h = refl
code-digit_char (suc (suc (suc (suc (suc (suc zero)))))) h = refl
code-digit_char (suc (suc (suc (suc (suc (suc (suc zero))))))) h = refl
code-digit_char (suc (suc (suc (suc (suc (suc (suc (suc zero)))))))) h = refl
code-digit_char (suc (suc (suc (suc (suc (suc (suc (suc (suc n))))))))) h = omega arith

to_digit-digit_char : (d : ℕ) → d < 10 → to_digit (digit_char d) ≡ some d
unfolding to_digit
to_digit-digit_char d h = ground (arith, code-digit_char d h)

-- A digit that fits is read.
scan-digit :
    (bound n d : ℕ) (s : String)
    → d < 10
    → n * 10 + d < bound
    → scan bound n (digit_char d ∷ s) ≡ scan bound (n * 10 + d) s
unfolding scan
scan-digit bound n d s h k = rw (to_digit-digit_char d h) (ground arith)

scan-show_from :
    (bound f n : ℕ) (out : String)
    → n < f
    → n < bound
    → scan bound 0 (show_from f n out) ≡ scan bound n out
unfolding show_from
scan-show_from bound zero n out h k = elim h [ ]
scan-show_from bound (suc f) n out h k = elim (Bool-cases (ltb n 10)) [
  | inl small ↦ rw small (ground (arith, scan-digit bound 0 n out))
  | inr more ↦
      rw
        (
          more,
          scan-show_from bound f (n / 10) (digit_char (n % 10) ∷ out) (ground arith) (ground arith),
        )
        (ground (arith, scan-digit bound (n / 10) (n % 10) out))
]

-- The number that a scan returns fits the type.
scan-lt : (bound n : ℕ) (s : String) (m : ℕ) → n < bound → scan bound n s ≡ some m → m < bound
unfolding scan
scan-lt bound n [] m h e = ground arith
scan-lt bound n (c ∷ s) m h e = elim (Option-cases (to_digit c)) [
  | inl bad ↦ absurd (ground arith)
  | inr (d, read) ↦ ground (arith, scan-lt bound (n * 10 + d) s m)
]

pub scan_some-lt :
    (bound : ℕ) (s : String) (m : ℕ) → 0 < bound → scan_some bound s ≡ some m → m < bound
unfolding scan_some
scan_some-lt bound [] m h e = cc
scan_some-lt bound (c ∷ s) m h e = scan-lt bound 0 (c ∷ s) m h e

show_from-cons :
    (f n : ℕ) (out : String)
    → n < f
    → (d : ℕ) × (s : String) × (show_from f n out ≡ digit_char d ∷ s) × (d < 10)
unfolding show_from
show_from-cons zero n out h = elim h [ ]
show_from-cons (suc f) n out h = elim (Bool-cases (ltb n 10)) [
  | inl small ↦ (n % 10, out, rw small, omega arith)
  | inr more ↦ rw more (show_from-cons f (n / 10) (digit_char (n % 10) ∷ out) (ground arith))
]

-- A number that `max_value_wei` is read as fits 128 bits.
pub parse_u128-lt : (s : String) (n : ℕ) → parse_u128 s ≡ some n → n < u128_bound
unfolding parse_u128
parse_u128-lt [] n e = cc
parse_u128-lt (c ∷ s) n e = ground (
  arith,
  scan_some-lt u128_bound s n (omega arith),
  scan_some-lt u128_bound (c ∷ s) n (omega arith),
)

parse_u128-digit :
    (d : ℕ) (s : String)
    → d < 10
    → parse_u128 (digit_char d ∷ s) ≡ scan u128_bound 0 (digit_char d ∷ s)
unfolding parse_u128
parse_u128-digit d s h = ground (arith, code-digit_char d h)

-- A number in decimal starts with a digit.
pub show_ℕ-cons : (n : ℕ) → (d : ℕ) × (s : String) × (show_ℕ n ≡ digit_char d ∷ s) × (d < 10)
unfolding show_ℕ
show_ℕ-cons n = show_from-cons (n + 1) n [] (omega arith)

pub scan-show_ℕ : (bound n : ℕ) → n < bound → scan bound 0 (show_ℕ n) ≡ some n
unfolding show_ℕ
scan-show_ℕ bound n h = unfold scan in scan-show_from bound (n + 1) n [] (omega arith) h

pub scan_some-show_ℕ : (bound n : ℕ) → n < bound → scan_some bound (show_ℕ n) ≡ some n
unfolding scan_some
scan_some-show_ℕ bound n h =
    let (d, s, e, lt) = show_ℕ-cons n in rw e (rw e at (scan-show_ℕ bound n h))

-- Reading the decimal digits of a number below 2^128 gives the number back.
pub parse_u128-show_ℕ : (n : ℕ) → n < u128_bound → parse_u128 (show_ℕ n) ≡ some n
parse_u128-show_ℕ n h =
    let (d, s, e, lt) = show_ℕ-cons n in
    rw e (parse_u128-digit d s lt ∙ rw e at (scan-show_ℕ u128_bound n h))
