-- ===== src/Examples/Hex.antt =====
-- A hexadecimal code for the sample crates, with the proof that decoding undoes encoding.
use Prim.Native.Char.{Char, code}
use ai_wallet.Prelude.{
  ℕ, zero, suc, ◌+◌, ◌-◌, ◌*◌, ◌/◌, ◌%◌, ◌<◌, ◌≡◌, refl, sym, ap, ◌∙◌, arith, String, List, [], ◌∷◌,
  Option, none, some, Result, ok, err, leb, ◌&&◌, if◌then◌else◌, All,
}

abbrev nth : String → ℕ → Char
nth String.[] n = "0"
nth (String.◌∷◌ c s) zero = c
nth (String.◌∷◌ c s) (suc n) = nth s n

abbrev digit : ℕ → Char
digit = nth "0123456789abcdef"

abbrev undigit : Char → Option ℕ
undigit c =
    if leb b'0' (code c) && leb (code c) b'9'
    then some (code c - 48)
    else if leb b'a' (code c) && leb (code c) b'f'
    then some (code c - 87)
    else none

undigit-digit : (n : ℕ) → n < 16 → undigit (digit n) ≡ some n
undigit-digit zero h = refl
undigit-digit (suc zero) h = refl
undigit-digit (suc (suc zero)) h = refl
undigit-digit (suc (suc (suc zero))) h = refl
undigit-digit (suc (suc (suc (suc zero)))) h = refl
undigit-digit (suc (suc (suc (suc (suc zero))))) h = refl
undigit-digit (suc (suc (suc (suc (suc (suc zero)))))) h = refl
undigit-digit (suc (suc (suc (suc (suc (suc (suc zero))))))) h = refl
undigit-digit (suc (suc (suc (suc (suc (suc (suc (suc zero)))))))) h = refl
undigit-digit (suc (suc (suc (suc (suc (suc (suc (suc (suc zero))))))))) h = refl
undigit-digit (suc (suc (suc (suc (suc (suc (suc (suc (suc (suc zero)))))))))) h = refl
undigit-digit (suc (suc (suc (suc (suc (suc (suc (suc (suc (suc (suc zero))))))))))) h = refl
undigit-digit (suc (suc (suc (suc (suc (suc (suc (suc (suc (suc (suc (suc zero)))))))))))) h = refl
undigit-digit (suc (suc (suc (suc (suc (suc (suc (suc (suc (suc (suc (suc (suc zero))))))))))))) h =
    refl
undigit-digit
      (suc (suc (suc (suc (suc (suc (suc (suc (suc (suc (suc (suc (suc (suc zero)))))))))))))) h =
    refl
undigit-digit
      (suc (suc (suc (suc (suc (suc (suc (suc (suc (suc (suc (suc (suc (suc (suc zero)))))))))))))))
      h =
    refl
undigit-digit
      (suc
        (suc (suc (suc (suc (suc (suc (suc (suc (suc (suc (suc (suc (suc (suc (suc n))))))))))))))))
      h =
    absurd (omega arith)

abbrev pub encode : List ℕ → String
encode [] = ""
encode (b ∷ bs) = String.◌∷◌ (digit (b / 16)) (String.◌∷◌ (digit (b % 16)) (encode bs))

abbrev byte : Option ℕ → Option ℕ → Result (List ℕ) String → Result (List ℕ) String
byte (some h) (some l) (ok bs) = ok ((h * 16 + l) ∷ bs)
byte (some h) (some l) (err e) = err e
byte _ _ _ = err "invalid character"

abbrev pub decode : String → Result (List ℕ) String
decode String.[] = ok []
decode (String.◌∷◌ c String.[]) = err "odd number of digits"
decode (String.◌∷◌ c (String.◌∷◌ d s)) = byte (undigit c) (undigit d) (decode s)

pub decode-encode : (bs : List ℕ) → All (λ b. b < 256) bs → decode (encode bs) ≡ ok bs
decode-encode [] h = refl
decode-encode (b ∷ bs) (lt, h) =
    let same : (b / 16) * 16 + b % 16 ≡ b = omega arith in
    rw (undigit-digit (b / 16) (omega arith))
      (rw (undigit-digit (b % 16) (omega arith)) (rw (decode-encode bs h) (rw same)))

pub encode-injective :
    (a b : List ℕ) → All (λ b. b < 256) a → All (λ b. b < 256) b → encode a ≡ encode b → a ≡ b
encode-injective a b ha hb e =
    let same : ok a ≡ ok b = sym (decode-encode a ha) ∙ ap decode e ∙ decode-encode b hb in cc
