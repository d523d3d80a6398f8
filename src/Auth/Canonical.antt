-- ===== src/Auth/Canonical.antt =====
-- The text that the HMAC signs.
use Prim.Native.Char.{code}
use Prim.Native.String.{[], ◌∷◌}
use text.Mathlib.TextLemmas.{nil-append, cons-append, head-eq_of_cons-eq, tail-eq_of_cons-eq}
use ai_wallet.Prelude.{
  ℕ, zero, suc, ◌+◌, ◌/◌, ◌%◌, ◌≡◌, ◌≢◌, refl, sym, ap, ◌∙◌, arith, String, some, ◌⧺◌, ℤ, pos,
  negsuc, ltb, Bool-cases, inl, inr,
}
use ai_wallet.Number.{digit_char, show_from, show_ℕ, show_ℤ, parse_i64}
use ai_wallet.Number.Decimal.{code-digit_char}
use ai_wallet.Number.Signed.{IsI64, parse_i64-show_ℤ}
use ai_wallet.Crates.{Crates, Bytes}
use ai_wallet.Crates.Laws.{IsBytes, Base64Laws}
use ai_wallet.Auth.{canonical}

-- No line feed is in the text.
abbrev pub IsOneLine : String → Type 0
IsOneLine [] = Unit
IsOneLine (c ∷ s) = (code c ≢ b'\n') × IsOneLine s

abbrev feed : String → String
feed s = "\n" ⧺ s

feed_lem : (s : String) → feed s ≡ "\n" ∷ s
feed_lem s = rw (cons-append "\n" [] s, nil-append s)

-- A text is cut at its first line feed.
line-injective :
    (a b : String) {s t : String}
    → IsOneLine a
    → IsOneLine b
    → a ⧺ feed s ≡ b ⧺ feed t
    → (a ≡ b) × (s ≡ t)
line-injective [] [] {s} {t} h k e =
    let e' : "\n" ∷ s ≡ "\n" ∷ t =
      sym (feed_lem s) ∙ sym (nil-append (feed s)) ∙ e ∙ nil-append (feed t) ∙ feed_lem t in
    (refl, tail-eq_of_cons-eq e')
line-injective [] (y ∷ b) {s} {t} h k e =
    let e' : "\n" ∷ s ≡ y ∷ (b ⧺ feed t) =
      sym (feed_lem s) ∙ sym (nil-append (feed s)) ∙ e ∙ cons-append y b (feed t) in
    absurd (k.0 (sym (ap code (head-eq_of_cons-eq e'))))
line-injective (x ∷ a) [] {s} {t} h k e =
    let e' : x ∷ (a ⧺ feed s) ≡ "\n" ∷ t =
      sym (cons-append x a (feed s)) ∙ e ∙ nil-append (feed t) ∙ feed_lem t in
    absurd (h.0 (ap code (head-eq_of_cons-eq e')))
line-injective (x ∷ a) (y ∷ b) {s} {t} h k e =
    let e' : x ∷ (a ⧺ feed s) ≡ y ∷ (b ⧺ feed t) =
      sym (cons-append x a (feed s)) ∙ e ∙ cons-append y b (feed t) in
    let (same, rest) = line-injective a b h.1 k.1 (tail-eq_of_cons-eq e') in
    let first = head-eq_of_cons-eq e' in (rw (first, same), rest)

show_from-IsOneLine : (f n : ℕ) (out : String) → IsOneLine out → IsOneLine (show_from f n out)
unfolding show_from
show_from-IsOneLine zero n out h = h
show_from-IsOneLine (suc f) n out h =
    let digit : code (digit_char (n % 10)) ≢ b'\n' =
      ground (arith, code-digit_char (n % 10) (omega arith)) in
    elim (Bool-cases (ltb n 10)) [
      | inl small ↦ rw small (digit, h)
      | inr more ↦ rw more (show_from-IsOneLine f (n / 10) (digit_char (n % 10) ∷ out) (digit, h))
    ]

show_ℕ-IsOneLine : (n : ℕ) → IsOneLine (show_ℕ n)
unfolding show_ℕ
show_ℕ-IsOneLine n = show_from-IsOneLine (n + 1) n [] tt

show_ℤ-IsOneLine : (t : ℤ) → IsOneLine (show_ℤ t)
unfolding show_ℤ
show_ℤ-IsOneLine (pos n) = show_ℕ-IsOneLine n
show_ℤ-IsOneLine (negsuc n) =
    rw (cons-append "-" [] (show_ℕ (n + 1)), nil-append (show_ℕ (n + 1)))
      (omega arith, show_ℕ-IsOneLine (n + 1))

show_ℤ-injective : (t u : ℤ) → IsI64 t → IsI64 u → show_ℤ t ≡ show_ℤ u → t ≡ u
show_ℤ-injective t u h k e =
    let read : some t ≡ some u =
      sym (parse_i64-show_ℤ t h) ∙ ap parse_i64 e ∙ parse_i64-show_ℤ u k in
    cc

module _ (K : Crates) where
  -- The HMAC signs a text that belongs to one request alone: where two texts are equal, so are the
  -- timestamps, methods, paths and bodies that they are made of. Timestamps are i64, and neither a
  -- method nor a path has a line feed, as in HTTP.
  pub canonical-injective :
      (laws : Base64Laws K) (t u : ℤ) (method method' path path' : String) (body body' : Bytes)
      → IsI64 t
      → IsI64 u
      → IsOneLine method
      → IsOneLine method'
      → IsOneLine path
      → IsOneLine path'
      → IsBytes body
      → IsBytes body'
      → canonical K t method path body ≡ canonical K u method' path' body'
      → (t ≡ u) × (method ≡ method') × (path ≡ path') × (body ≡ body')
  unfolding canonical
  canonical-injective laws t u method method' path path' body body' ht hu hm hm' hp hp' hb hb' e =
      let (shown, e1) =
        line-injective (show_ℤ t) (show_ℤ u) (show_ℤ-IsOneLine t) (show_ℤ-IsOneLine u) e in
      let (methods, e2) = line-injective method method' hm hm' e1 in
      let (paths, e3) = line-injective path path' hp hp' e2 in
      (show_ℤ-injective t u ht hu shown, methods, paths, laws.encode_injective body body' hb hb' e3)
