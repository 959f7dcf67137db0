-- ===== src/Client/Backoff.antt =====
-- The delays of `error_backoff_ms` of crates/frontend/src/sse_client.rs.
use dreamwell.Common.{ℕ, zero, suc, ◌*◌, ◌^◌, ◌≤◌, ◌≡◌, refl, ap, ◌∙◌, min, arith}
use dreamwell.Client.Sse.{
  error_backoff_ms, max_backoff_ms, base_backoff_ms, saturating_mul, saturating_pow,
}

pow-suc : (n : ℕ) → 2 ^ suc n ≡ 2 * 2 ^ n
pow-suc n = omega arith

pow-32 : (n : ℕ) → 32 ≤ 2 ^ suc (suc (suc (suc (suc n))))
pow-32 zero = omega arith
pow-32 (suc n) = omega (arith, pow-32 n, pow-suc (suc (suc (suc (suc (suc n))))))

-- Neither the cap on the exponent nor the 32-bit saturation is seen: the delay doubles from one
-- second with each attempt, up to thirty.
pub error_backoff_ms_lem : (attempt : ℕ) → error_backoff_ms attempt ≡ min (1000 * 2 ^ attempt) 30000
unfolding error_backoff_ms
error_backoff_ms_lem zero = refl
error_backoff_ms_lem (suc zero) = refl
error_backoff_ms_lem (suc (suc zero)) = refl
error_backoff_ms_lem (suc (suc (suc zero))) = refl
error_backoff_ms_lem (suc (suc (suc (suc zero)))) = refl
error_backoff_ms_lem (suc (suc (suc (suc (suc n))))) =
    let capped : min (suc (suc (suc (suc (suc n))))) 5 ≡ 5 = omega arith in
    ap (λ e. min (saturating_mul base_backoff_ms (saturating_pow 2 e)) max_backoff_ms) capped
    ∙ omega (arith, pow-32 n)

pow-le : (a b : ℕ) → a ≤ b → 2 ^ a ≤ 2 ^ b
pow-le zero zero h = omega arith
pow-le (suc a) zero h = absurd (omega arith)
pow-le zero (suc b) h = omega (arith, pow-le zero b (omega arith), pow-suc b)
pow-le (suc a) (suc b) h = omega (arith, pow-le a b (omega arith), pow-suc a, pow-suc b)

pub pow_pos : (a : ℕ) → 1 ≤ 2 ^ a
pow_pos zero = omega arith
pow_pos (suc a) = omega (arith, pow_pos a, pow-suc a)

-- A later attempt never waits less, and every delay is between one second and thirty.
pub error_backoff_ms_mono :
    (a b : ℕ)
    → a ≤ b
    → (error_backoff_ms a ≤ error_backoff_ms b)
      × (1000 ≤ error_backoff_ms a)
      × (error_backoff_ms b ≤ 30000)
error_backoff_ms_mono a b h =
    let ea = error_backoff_ms_lem a in
    let eb = error_backoff_ms_lem b in
    let grows = pow-le a b h in
    let some_delay = pow_pos a in (omega arith, omega arith, omega arith)
