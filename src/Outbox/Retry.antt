-- ===== src/Outbox/Retry.antt =====
-- How long the worker waits before the next attempt, and when it gives up.
use auditchain_gateway_backe.Prelude.{
  ℕ, zero, suc, ◌-◌, ◌*◌, ◌^◌, ◌≤◌, ◌≡◌, sym, ap, ◌∙◌, arith, min,
}
use native.Mathlib.Nat.{
  mul_assoc, mul_comm, mul-le-mul_left, one-le-pow, pow-succ', mul-one, pow-zero,
}
use auditchain_gateway_backe.Outbox.{delay_after, retry_delay}

-- the delay doubled once more, in the two ways that the loop meets it
double_more : (delay n : ℕ) → delay * 2 ^ suc n ≡ 2 * delay * 2 ^ n
double_more delay n =
    ap (λ k. delay * k) (pow-succ' 2 n)
    ∙ sym (mul_assoc delay 2 (2 ^ n))
    ∙ ap (λ k. k * 2 ^ n) (mul_comm delay 2)

double_grows : (delay n : ℕ) → delay ≤ delay * 2 ^ n
double_grows delay n =
    let h : delay * 1 ≤ delay * 2 ^ n = mul-le-mul_left delay (one-le-pow n 2 (omega arith)) in
    omega (arith, h, mul-one delay)

double_none : (delay : ℕ) → delay * 2 ^ 0 ≡ delay
double_none delay = ap (λ k. delay * k) (pow-zero 2) ∙ mul-one delay

delay_after_doubles :
    (minute delay n : ℕ) → delay_after minute delay n ≡ min (delay * 2 ^ n) (30 * minute)
unfolding delay_after
delay_after_doubles minute delay zero = ground (arith, double_none delay)
delay_after_doubles minute delay (suc n) = ground (
  arith,
  delay_after_doubles minute (2 * delay) n,
  double_more delay n,
  double_grows (2 * delay) n,
)

-- From the first attempt on, the delay doubles with each attempt, up to thirty minutes.
pub retry_delay_doubles :
    (minute base attempt : ℕ)
    → retry_delay minute base (suc attempt) ≡ min (base * 2 ^ attempt) (30 * minute)
unfolding retry_delay
retry_delay_doubles minute base attempt =
    let same : suc attempt - 1 ≡ attempt = omega arith in
    ap (delay_after minute base) same ∙ delay_after_doubles minute base attempt
