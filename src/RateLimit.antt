-- ===== src/RateLimit.antt =====
-- The token buckets that limit the requests of each client (internal/middleware/rate_limit.go).
-- Times are nanoseconds. The tokens are float64, whose values are whole multiples of a smallest one:
-- they are counted in units of which a token has 1000000000 * fine. `add_refill` stands for the
-- arithmetic of float64 in b.tokens += elapsed * b.refillHz: the rounded sum for the tokens, the
-- nanoseconds since the last request, and the rate. (The other step, b.tokens--, is exact for a
-- float64 of at least one.)
pub mod Bounds
mod Examples
use auditchain_gateway_backe.Prelude.{
  ℕ, ◌+◌, ◌-◌, ◌*◌, Bool, true, false, Option, none, some, List, [], ◌∷◌, min, leb, if◌then◌else◌,
}
use auditchain_gateway_backe.Prelude.Text.{Text, text_eq}

pub record TokenBucket : Type 0 where
  pub tokens : ℕ
  pub max_token : ℕ
  pub refill_hz : ℕ
  pub last_time : ℕ

-- The map buckets; the last entry of a client is in front.
abbrev pub Buckets : Type 0
Buckets = List (Text × TokenBucket)

unfoldable pub bucket_of : Text → Buckets → Option TokenBucket
unfolding text_eq
bucket_of client [] = none
bucket_of client ((k, b) ∷ m) = if text_eq k client then some b else bucket_of client m

-- one token
abbrev pub token : ℕ → ℕ
token fine = 1000000000 * fine

module _ (fine : ℕ) (add_refill : ℕ → ℕ → ℕ → ℕ) where
  -- the bucket after the refill of allow, at the time `now`
  unfoldable pub refill : ℕ → TokenBucket → TokenBucket
  refill now b = record b {
    tokens = min (add_refill b.tokens (now - b.last_time) b.refill_hz) b.max_token;
    last_time = now;
  }

  unfoldable pub allow : ℕ → TokenBucket → TokenBucket × Bool
  unfolding refill
  allow now b =
      let b' : TokenBucket = refill now b in
      if leb (token fine) b'.tokens
      then (record b' { tokens = b'.tokens - (token fine) }, true)
      else (b', false)

  abbrev pub new_bucket : ℕ → ℕ → TokenBucket
  new_bucket rate now = record {
    tokens = rate * (token fine);
    max_token = rate * (token fine);
    refill_hz = rate;
    last_time = now;
  }

  -- the bucket of a client, made where there is none
  unfoldable pub bucket_or_new : ℕ → ℕ → Text → Buckets → TokenBucket
  bucket_or_new rate now client m = elim (bucket_of client m) [
    | some b ↦ b
    | none ↦ new_bucket rate now
  ]

  -- RateLimiter on a request of a client: whether it goes on, and the buckets after it
  unfoldable pub rate_limiter : ℕ → ℕ → Text → Buckets → Buckets × Bool
  unfolding bucket_or_new
  rate_limiter rate now client m =
      let (b, passes) = allow now (bucket_or_new rate now client m) in ((client, b) ∷ m, passes)

  -- A request without a client_id is not limited.
  unfoldable pub limit_request : ℕ → ℕ → Option Text → Buckets → Buckets × Bool
  unfolding rate_limiter
  limit_request rate now none m = (m, true)
  limit_request rate now (some client) m = rate_limiter rate now client m
