-- ===== src/Prelude/Lists.antt =====
-- Lists measured by native numbers, under the library's names.
use Prim.Native.Nat.{ℕ, zero, suc, ◌+◌, min}
use mathlib.Core.Path.{◌≡◌, refl, ap, sym, subst, ◌∙◌}
use mathlib.Core.List.{Memᴰ, Sublistᴰ, List, [], ◌∷◌, ◌++◌, reverse, reverse-cons}
use native.Mathlib.Omega.{arith}

module _ {ℓ} {A : Type ℓ} where
  abbrev pub length : List A → ℕ
  length [] = 0
  length (x ∷ xs) = suc (length xs)

  abbrev pub take : ℕ → List A → List A
  take zero xs = []
  take (suc n) [] = []
  take (suc n) (x ∷ xs) = x ∷ take n xs

  pub length-append : (xs ys : List A) → length (xs ++ ys) ≡ length xs + length ys
  length-append [] ys = omega arith
  length-append (x ∷ xs) ys = omega (arith, length-append xs ys)

module _ {ℓ} {A : Type ℓ} where
  pub length-reverse : (xs : List A) → length (reverse xs) ≡ length xs
  length-reverse [] = refl
  length-reverse (x ∷ xs) =
      omega (
        arith,
        ap length (reverse-cons x xs),
        length-append (reverse xs) (x ∷ []),
        length-reverse xs,
      )

  pub length-take : (n : ℕ) (xs : List A) → length (take n xs) ≡ min n (length xs)
  length-take zero xs = omega arith
  length-take (suc n) [] = omega arith
  length-take (suc n) (x ∷ xs) = omega (arith, length-take n xs)

module _ {ℓ κ} {A : Type ℓ} (P : A → Type κ) where
  abbrev pub All : List A → Type κ
  All [] = Unit
  All (x ∷ xs) = P x × All xs

  pub All-append : (xs ys : List A) → All xs → All ys → All (xs ++ ys)
  All-append [] ys hx hy = hy
  All-append (x ∷ xs) ys hx hy = (hx.0, All-append xs ys hx.1 hy)

  pub All-split : (xs ys : List A) → All (xs ++ ys) → All xs × All ys
  All-split [] ys h = (tt, h)
  All-split (x ∷ xs) ys h = let (a, b) = All-split xs ys h.1 in ((h.0, a), b)

  pub All-mem : (x : A) (xs : List A) → All xs → Memᴰ x xs → P x
  All-mem x [] h m = elim m [ ]
  All-mem x (y ∷ ys) h (Memᴰ.head e) = subst P (sym e) h.0
  All-mem x (y ∷ ys) h (Memᴰ.tail m) = All-mem x ys h.1 m

  pub All-of_mem : (xs : List A) → ((x : A) → Memᴰ x xs → P x) → All xs
  All-of_mem [] h = tt
  All-of_mem (x ∷ xs) h = (h x (Memᴰ.head refl), All-of_mem xs (λ y m. h y (Memᴰ.tail m)))

module _ {ℓ κ ι} {A : Type ℓ} {P : A → Type κ} {Q : A → Type ι} (f : (x : A) → P x → Q x) where
  pub All-map : (xs : List A) → All P xs → All Q xs
  All-map [] h = tt
  All-map (x ∷ xs) h = (f x h.0, All-map xs h.1)

-- Sublists, as they lose an element or find one in the longer list.
module _ {ℓ} {A : Type ℓ} where
  heads-eq : {x y : A} {xs ys : List A} → x ∷ xs ≡ y ∷ ys → x ≡ y
  heads-eq e = cc

  tails-eq : {x y : A} {xs ys : List A} → x ∷ xs ≡ y ∷ ys → xs ≡ ys
  tails-eq e = cc

  pub sublist-without :
      (before : List A) (x : A) (after : List A) {us xs : List A}
      → us ≡ before ++ x ∷ after
      → Sublistᴰ us xs
      → Sublistᴰ (before ++ after) xs
  sublist-without [] x after e Sublistᴰ.slnil = cc
  sublist-without (y ∷ before) x after e Sublistᴰ.slnil = cc
  sublist-without before x after e (Sublistᴰ.cons h) =
      Sublistᴰ.cons (sublist-without before x after e h)
  sublist-without [] x after e (Sublistᴰ.cons-cons {l₂ = zs} d h) =
      Sublistᴰ.cons (subst (λ l. Sublistᴰ l zs) (tails-eq e) h)
  sublist-without (y ∷ before) x after e (Sublistᴰ.cons-cons d h) =
      Sublistᴰ.cons-cons (sym (heads-eq e) ∙ d) (sublist-without before x after (tails-eq e) h)

  pub sublist-split :
      (before : List A) (x : A) (after : List A) {us xs : List A}
      → us ≡ before ++ x ∷ after
      → Sublistᴰ us xs
      → (b : List A) × (a : List A) × (xs ≡ b ++ x ∷ a) × Sublistᴰ (before ++ after) (b ++ a)
  sublist-split [] x after e Sublistᴰ.slnil = cc
  sublist-split (y ∷ before) x after e Sublistᴰ.slnil = cc
  sublist-split before x after e (Sublistᴰ.cons {a = z} h) =
      let (b, a, found, s) = sublist-split before x after e h in
      (z ∷ b, a, ap (λ zs. z ∷ zs) found, Sublistᴰ.cons s)
  sublist-split [] x after e (Sublistᴰ.cons-cons {b = z} {l₂ = zs} d h) =
      ([], zs, ap (λ y. y ∷ zs) (sym d ∙ heads-eq e), subst (λ l. Sublistᴰ l zs) (tails-eq e) h)
  sublist-split (y ∷ before) x after e (Sublistᴰ.cons-cons {b = z} d h) =
      let (b, a, found, s) = sublist-split before x after (tails-eq e) h in
      (z ∷ b, a, ap (λ zs. z ∷ zs) found, Sublistᴰ.cons-cons (sym (heads-eq e) ∙ d) s)

  pub sublist-snoc :
      (x : A) {xs ys : List A} → Sublistᴰ xs ys → Sublistᴰ (xs ++ x ∷ []) (ys ++ x ∷ [])
  sublist-snoc x Sublistᴰ.slnil = Sublistᴰ.cons-cons refl Sublistᴰ.slnil
  sublist-snoc x (Sublistᴰ.cons h) = Sublistᴰ.cons (sublist-snoc x h)
  sublist-snoc x (Sublistᴰ.cons-cons e h) = Sublistᴰ.cons-cons e (sublist-snoc x h)
