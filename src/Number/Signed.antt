-- ===== src/Number/Signed.antt =====
-- The range of `parse_i64`.
use Prim.Native.String.{[], ◌∷◌}
use mathlib.Core.Option
use text.Mathlib.TextLemmas.{nil-append, cons-append}
use ai_wallet.Prelude.{
  ℕ, zero, suc, ◌+◌, ◌<◌, ◌≡◌, String, some, arith, ℤ, pos, negsuc, Option-cases, inl, inr, ap, ◌∙◌,
  ◌⧺◌,
}
use ai_wallet.Number.{digit_char, show_ℕ, show_ℤ, i64_bound, scan_some, parse_i64, negate}
use ai_wallet.Number.Decimal.{scan_some-lt, code-digit_char, show_ℕ-cons, scan_some-show_ℕ}

abbrev pub IsI64 : ℤ → Type 0
IsI64 (pos n) = n < i64_bound
IsI64 (negsuc n) = n < i64_bound

negate-IsI64 : (n : ℕ) → n < i64_bound + 1 → IsI64 (negate n)
negate-IsI64 zero h = omega arith
negate-IsI64 (suc n) h = omega arith

map-negate-IsI64 :
    (s : String) (t : ℤ) → Option.map negate (scan_some (i64_bound + 1) s) ≡ some t → IsI64 t
map-negate-IsI64 s t e = elim (Option-cases (scan_some (i64_bound + 1) s)) [
  | inl h ↦ absurd (ground arith)
  | inr (n, h) ↦ ground (arith, negate-IsI64 n (scan_some-lt (i64_bound + 1) s n (omega arith) h))
]

map_pos-IsI64 : (s : String) (t : ℤ) → Option.map pos (scan_some i64_bound s) ≡ some t → IsI64 t
map_pos-IsI64 s t e = elim (Option-cases (scan_some i64_bound s)) [
  | inl h ↦ absurd (ground arith)
  | inr (n, h) ↦ ground (arith, scan_some-lt i64_bound s n (omega arith) h)
]

-- A timestamp that is read is an i64.
pub parse_i64-IsI64 : (s : String) (t : ℤ) → parse_i64 s ≡ some t → IsI64 t
unfolding parse_i64
parse_i64-IsI64 String.[] t e = cc
parse_i64-IsI64 (String.◌∷◌ c s) t e =
    ground (arith, map-negate-IsI64 s t, map_pos-IsI64 s t, map_pos-IsI64 (String.◌∷◌ c s) t)

parse_i64-digit :
    (d : ℕ) (s : String)
    → d < 10
    → parse_i64 (digit_char d ∷ s) ≡ Option.map pos (scan_some i64_bound (digit_char d ∷ s))
unfolding parse_i64
parse_i64-digit d s h = ground (arith, code-digit_char d h)

parse_i64-minus :
    (s : String) → parse_i64 ("-" ⧺ s) ≡ Option.map negate (scan_some (i64_bound + 1) s)
unfolding parse_i64
parse_i64-minus s = rw (cons-append "-" [] s, nil-append s)

-- An i64 that is printed is read back.
pub parse_i64-show_ℤ : (t : ℤ) → IsI64 t → parse_i64 (show_ℤ t) ≡ some t
unfolding show_ℤ
parse_i64-show_ℤ (pos n) h =
    let (d, s, e, lt) = show_ℕ-cons n in
    rw e (parse_i64-digit d s lt ∙ rw e at (ap (Option.map pos) (scan_some-show_ℕ i64_bound n h)))
parse_i64-show_ℤ (negsuc n) h =
    parse_i64-minus (show_ℕ (n + 1))
    ∙ rw (scan_some-show_ℕ (i64_bound + 1) (n + 1) (omega arith)) (ground arith)
