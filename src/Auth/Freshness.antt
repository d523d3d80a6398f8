-- ===== src/Auth/Freshness.antt =====
-- The freshness test of the HMAC check, `(now - timestamp).abs() > max_skew_seconds` on i64.
use ai_wallet.Prelude.{
  ℕ, suc, ◌+◌, ◌-◌, ◌≤◌, ◌<◌, ◌≡◌, ◌↔◌, ◌⊎◌, inl, inr, false, arith, refl, ℤ, pos, negsuc, pos_part,
  neg_part, ◌-ℤ◌,
}
use native.Mathlib.Decide.{dec_le, dec_lt, ℕ_discrete}
use ai_wallet.Number.{i64_bound, u64_bound}
use ai_wallet.Number.Signed.{IsI64}
use ai_wallet.Auth.{wrap_i64, abs_i64, is_stale}

-- The timestamp is at most `skew` seconds from `now`, as integers.
abbrev pub IsWithin : ℕ → ℤ → ℕ → Type 0
IsWithin now t skew =
    (now + neg_part t ≤ pos_part t + skew) × (pos_part t ≤ now + skew + neg_part t)

-- The one timestamp that lies 2^63 seconds before `now`.
abbrev pub overflowing : ℕ → ℤ
overflowing now = negsuc (i64_bound - now - 1)

wrap_small : (n : ℕ) → n < i64_bound → wrap_i64 (pos n) ≡ pos n
unfolding wrap_i64
wrap_small n h = ground arith

wrap_small_neg : (n : ℕ) → n < i64_bound → wrap_i64 (negsuc n) ≡ negsuc n
unfolding wrap_i64
wrap_small_neg n h = ground arith

wrap_large : (n : ℕ) → i64_bound ≤ n → n < u64_bound → wrap_i64 (pos n) ≡ negsuc (u64_bound - n - 1)
unfolding wrap_i64
wrap_large n h k = ground arith

abs_neg : (n : ℕ) → n + 1 < i64_bound → abs_i64 (negsuc n) ≡ pos (n + 1)
unfolding abs_i64
abs_neg n h = ground (arith, wrap_small (n + 1))

abs_least : abs_i64 (negsuc (i64_bound - 1)) ≡ negsuc (i64_bound - 1)
unfolding abs_i64
abs_least = refl

abs_pos : (n : ℕ) → abs_i64 (pos n) ≡ pos n
unfolding abs_i64
abs_pos n = refl

fresh-after :
    (now a skew : ℕ)
    → now < i64_bound
    → a < i64_bound
    → (is_stale (pos now) (pos a) (pos skew) ≡ false) ↔ IsWithin now (pos a) skew
unfolding is_stale ◌-ℤ◌
fresh-after now a skew h k = elim (dec_le a now) [
  | yes le ↦
      let wrapped = wrap_small (now - a) (omega arith) in
      let size = abs_pos (now - a) in (λ e. ground arith, λ e. ground arith)
  | no gt ↦
      let wrapped = wrap_small_neg (a - now - 1) (omega arith) in
      let size = abs_neg (a - now - 1) (omega arith) in (λ e. ground arith, λ e. ground arith)
]

fresh-before :
    (now a skew : ℕ)
    → now + skew < i64_bound
    → a < i64_bound
    → (is_stale (pos now) (negsuc a) (pos skew) ≡ false)
      ↔ (IsWithin now (negsuc a) skew ⊎ (now + a + 1 ≡ i64_bound))
unfolding is_stale ◌-ℤ◌
fresh-before now a skew h k = elim (dec_lt (now + a + 1) i64_bound) [
  | yes lt ↦
      let wrapped = wrap_small (now + suc a) (omega arith) in
      let size = abs_pos (now + suc a) in (λ e. ground arith, λ e. ground arith)
  | no ge ↦
      let wrapped = wrap_large (now + suc a) (omega arith) (omega arith) in
      elim (ℕ_discrete (now + suc a) i64_bound) [
        | yes e ↦ (λ _. inr (omega arith), λ _. ground (arith, abs_least))
        | no n ↦
            let size = abs_neg (u64_bound - (now + suc a) - 1) (omega arith) in
            (λ e. ground arith, λ e. ground arith)
      ]
]

-- A request passes the freshness test exactly when its timestamp is within the allowed skew of now,
-- or lies exactly 2^63 seconds back, where the subtraction overflows to the least i64, which `abs`
-- leaves negative. The clock is not negative, and its sum with the skew is an i64.
pub fresh_iff :
    (now skew : ℕ) (timestamp : ℤ)
    → now + skew < i64_bound
    → IsI64 timestamp
    → (is_stale (pos now) timestamp (pos skew) ≡ false)
      ↔ (IsWithin now timestamp skew ⊎ (timestamp ≡ overflowing now))
fresh_iff now skew (pos a) h k =
    let (to, from) = fresh-after now a skew (omega arith) k in
    (λ e. inl (to e), λ e. from (ground arith))
fresh_iff now skew (negsuc a) h k =
    let (to, from) = fresh-before now a skew h k in
    (λ e. ground (arith, to e), λ e. from (ground arith))
