-- ===== src/RateLimit/Examples.antt =====
-- Two clients, and a burst of one of them.
use auditchain_gateway_backe.Prelude.{ℕ, ◌+◌, ◌-◌, ◌*◌, ◌≤◌, ◌≡◌, refl, List, [], ◌∷◌, arith}
use auditchain_gateway_backe.Prelude.Text.{codes, text_eq}
use auditchain_gateway_backe.RateLimit.{token, bucket_of, rate_limiter, allow}
use auditchain_gateway_backe.RateLimit.Bounds.{
  Request, admitted, InOrder, IsNear, serve, admitted_bounded,
}

-- within one second, at two requests a second
abbrev burst : List Request
burst =
    (codes "a", 0) ∷ (codes "a", 1) ∷ (codes "b", 2) ∷ (codes "a", 3) ∷ (codes "a", 500000001) ∷ []

-- each refill is rounded up by one unit, of which a token has two billions
abbrev rounded_up : ℕ → ℕ → ℕ → ℕ
rounded_up tokens elapsed rate = tokens + elapsed * rate * 2 + 1

burst-admitted : admitted 2 rounded_up 2 (codes "a") burst [] ≡ 3
unfolding admitted rate_limiter allow bucket_of text_eq
burst-admitted = refl

rounded-IsNear : IsNear 2 rounded_up 1
rounded-IsNear = record { rounded = λ tokens elapsed rate. omega arith }

-- a second of rest, and a burst again
abbrev second_burst : List Request
second_burst = (codes "a", 2000000000) ∷ (codes "a", 2000000001) ∷ (codes "a", 2000000002) ∷ []

burst-InOrder : InOrder 0 1500000000 burst
burst-InOrder = omega arith

second-InOrder : InOrder 1500000000 2500000000 second_burst
second-InOrder = omega arith

admitted_bounded_example :
    admitted 2 rounded_up 2 (codes "a") second_burst (serve 2 rounded_up 2 burst []) * token 2
    ≤ 2 * token 2 + (2500000000 - 1500000000) * 2 * 2 + 1 * 3
admitted_bounded_example =
    admitted_bounded 2 rounded_up 1 rounded-IsNear 2 1500000000 2500000000 (codes "a") burst
      second_burst burst-InOrder second-InOrder
