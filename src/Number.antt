-- ===== src/Number.antt =====
-- The standard library's conversions between integers and decimal text that the program calls:
-- `str::parse::<u128>`, `str::parse::<i64>`, and `Display` of an integer.
pub mod Decimal
pub mod Signed
use Prim.Native.Char.{Char, code}
use Prim.Native.String.{[], ◌∷◌}
use mathlib.Core.Option
use ai_wallet.Prelude.{
  ℕ, zero, suc, ◌+◌, ◌-◌, ◌*◌, ◌/◌, ◌%◌, ◌^◌, String, Option, none, some, ltb, leb, ◌==◌, ◌&&◌,
  if◌then◌else◌, ℤ, pos, negsuc, ◌⧺◌,
}

infixl 5 ◌>>=◌
abbrev pub ◌>>=◌ {ℓ κ} : {A : Type ℓ} {B : Type κ} → Option A → (A → Option B) → Option B
none >>= f = none
some a >>= f = f a

abbrev pub u128_bound : ℕ
u128_bound = 2 ^ 128

abbrev pub u64_bound : ℕ
u64_bound = 2 ^ 64

abbrev pub i64_bound : ℕ
i64_bound = 2 ^ 63

unfoldable pub to_digit : Char → Option ℕ
to_digit c = if leb b'0' (code c) && leb (code c) b'9' then some (code c - b'0') else none

-- `checked_mul` and `checked_add`: an overflow ends the loop with an error.
unfoldable pub push_digit : ℕ → ℕ → ℕ → Option ℕ
push_digit bound n d = if ltb (n * 10 + d) bound then some (n * 10 + d) else none

-- The loop over the digits; `bound` is the first value that the type cannot hold.
unfoldable pub scan : ℕ → ℕ → String → Option ℕ
unfolding to_digit push_digit
scan bound n [] = some n
scan bound n (c ∷ s) = do d ← to_digit c; m ← push_digit bound n d; scan bound m s

-- At least one digit.
unfoldable pub scan_some : ℕ → String → Option ℕ
unfolding scan
scan_some bound [] = none
scan_some bound (c ∷ s) = scan bound 0 (c ∷ s)

-- A `+` may stand in front, a `-` may not.
unfoldable pub parse_u128 : String → Option ℕ
unfolding scan_some
parse_u128 [] = none
parse_u128 (c ∷ s) = if code c == b'+' then scan_some u128_bound s else scan_some u128_bound (c ∷ s)

-- -n, for a magnitude n.
abbrev pub negate : ℕ → ℤ
negate zero = pos 0
negate (suc n) = negsuc n

-- The magnitude of a negative number may be 2^63.
unfoldable pub parse_i64 : String → Option ℤ
unfolding scan_some
parse_i64 [] = none
parse_i64 (c ∷ s) =
    if code c == b'-'
    then Option.map negate (scan_some (i64_bound + 1) s)
    else if code c == b'+'
    then Option.map pos (scan_some i64_bound s)
    else Option.map pos (scan_some i64_bound (c ∷ s))

abbrev pub digit_char : ℕ → Char
digit_char zero = "0"
digit_char (suc zero) = "1"
digit_char (suc (suc zero)) = "2"
digit_char (suc (suc (suc zero))) = "3"
digit_char (suc (suc (suc (suc zero)))) = "4"
digit_char (suc (suc (suc (suc (suc zero))))) = "5"
digit_char (suc (suc (suc (suc (suc (suc zero)))))) = "6"
digit_char (suc (suc (suc (suc (suc (suc (suc zero))))))) = "7"
digit_char (suc (suc (suc (suc (suc (suc (suc (suc zero)))))))) = "8"
digit_char (suc (suc (suc (suc (suc (suc (suc (suc (suc n))))))))) = "9"

-- The digits of `n` in front of `out`, the last one first; one round of fuel for each digit.
unfoldable pub show_from : ℕ → ℕ → String → String
show_from zero n out = out
show_from (suc f) n out =
    let rest = show_from f (n / 10) (digit_char (n % 10) ∷ out) in
    if ltb n 10 then digit_char (n % 10) ∷ out else rest

unfoldable pub show_ℕ : ℕ → String
unfolding show_from
show_ℕ n = show_from (n + 1) n []

unfoldable pub show_ℤ : ℤ → String
unfolding show_ℕ
show_ℤ (pos n) = show_ℕ n
show_ℤ (negsuc n) = "-" ⧺ show_ℕ (n + 1)
