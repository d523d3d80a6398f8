-- ===== src/Prelude/Text.antt =====
-- The standard library's operations on `str` that the program calls: `trim`, `trim_end_matches`
-- and `strip_prefix`.
use Prim.Native.Nat.{ℕ}
use Prim.Native.Char.{Char, code}
use Prim.Native.String
use Prim.Native.String.{String, [], ◌∷◌}
use mathlib.Core.Path.{◌≡◌, refl}
use mathlib.Core.Bool.{Bool, true, false, ◌&&◌, ◌||◌}
use mathlib.Core.Logic.{inl, inr}
use mathlib.Core.Option.{Option, none, some}
use ai_wallet.Prelude.Tests.{leb, ◌==◌, Bool-cases, if◌then◌else◌}

infixr 65 ◌⧺◌
abbrev pub ◌⧺◌ : String → String → String
s ⧺ t = String.◌++◌ s t

-- Unicode's White_Space.
unfoldable pub is_whitespace : ℕ → Bool
is_whitespace c =
    (leb 9 c && leb c 13)
    || c == 32
    || c == 0x85
    || c == 0xA0
    || c == 0x1680
    || (leb 0x2000 c && leb c 0x200A)
    || c == 0x2028
    || c == 0x2029
    || c == 0x202F
    || c == 0x205F
    || c == 0x3000

unfoldable pub trim_start : String → String
trim_start [] = []
trim_start (c ∷ s) = if is_whitespace (code c) then trim_start s else c ∷ s

-- Drops `c`, unless something is left behind it.
abbrev keep_before : Bool → Char → String → String
keep_before drop c [] = if drop then [] else c ∷ []
keep_before drop c (d ∷ s) = c ∷ d ∷ s

unfoldable pub trim_end : String → String
trim_end [] = []
trim_end (c ∷ s) = keep_before (is_whitespace (code c)) c (trim_end s)

unfoldable pub trim : String → String
unfolding trim_start trim_end is_whitespace
trim s = trim_end (trim_start s)

abbrev pub is_empty : String → Bool
is_empty [] = true
is_empty (c ∷ s) = false

-- `s.trim_end_matches(c)`, for a character given by its code.
unfoldable pub trim_end_matches : ℕ → String → String
trim_end_matches k [] = []
trim_end_matches k (c ∷ s) = keep_before (code c == k) c (trim_end_matches k s)

-- `strip_prefix("0x")`.
unfoldable pub strip_0x : String → Option String
strip_0x (c ∷ d ∷ s) = if code c == b'0' && code d == b'x' then some s else none
strip_0x _ = none

-- Every character is white space.
abbrev pub IsBlank : String → Type 0
IsBlank [] = Unit
IsBlank (c ∷ s) = (is_whitespace (code c) ≡ true) × IsBlank s

trim_end-of_IsBlank : (s : String) → IsBlank s → trim_end s ≡ []
unfolding trim_end
trim_end-of_IsBlank [] h = refl
trim_end-of_IsBlank (c ∷ s) (w, h) = rw (trim_end-of_IsBlank s h, w)

trim_start-of_IsBlank : (s : String) → IsBlank s → trim_start s ≡ []
unfolding trim_start
trim_start-of_IsBlank [] h = refl
trim_start-of_IsBlank (c ∷ s) (w, h) = rw w (trim_start-of_IsBlank s h)

keep_before-ne-nil : (c : Char) (s : String) → is_empty (keep_before false c s) ≡ false
keep_before-ne-nil c [] = refl
keep_before-ne-nil c (d ∷ s) = refl

trim_end-solid :
    (c : Char) (s : String) → is_whitespace (code c) ≡ false → is_empty (trim_end (c ∷ s)) ≡ false
unfolding trim_end
trim_end-solid c s w = rw w (keep_before-ne-nil c (trim_end s))

-- `s.trim().is_empty()` holds exactly of the blank texts.
pub IsBlank-of_trim : (s : String) → is_empty (trim s) ≡ true → IsBlank s
unfolding trim
IsBlank-of_trim [] h = tt
IsBlank-of_trim (c ∷ s) h = elim (Bool-cases (is_whitespace (code c))) [
  | inl w ↦ (w, IsBlank-of_trim s (rw (w, trim_start) at h))
  | inr w ↦ cc (rw (w, trim_start) at h, trim_end-solid c s w)
]

pub trim-of_IsBlank : (s : String) → IsBlank s → is_empty (trim s) ≡ true
unfolding trim
trim-of_IsBlank s h = rw (trim_start-of_IsBlank s h)
