-- ===== src/RateLimit/Bounds.antt =====
-- How many requests of a client pass in a stretch of time.
use auditchain_gateway_backe.Prelude.{
  ℕ, suc, length, ◌+◌, ◌-◌, ◌*◌, ◌≤◌, ◌≡◌, refl, ap, Bool, true, false, Option, none, some, List,
  [], ◌∷◌, arith, Bool-cases, Option-cases, inl, inr, if◌then◌else◌,
}
use auditchain_gateway_backe.Prelude.Text.{Text, text_eq, text_eq_iff, text_eq_refl}
use auditchain_gateway_backe.RateLimit.{
  TokenBucket, Buckets, token, allow, bucket_of, bucket_or_new, rate_limiter,
}

-- a request of a client at a time
abbrev pub Request : Type 0
Request = Text × ℕ

-- the times do not go back, from `start` to `end`
abbrev pub InOrder : ℕ → ℕ → List Request → Type 0
InOrder start end [] = start ≤ end
InOrder start end ((who, now) ∷ rs) = (start ≤ now) × InOrder now end rs

InOrder-le : (start end : ℕ) (rs : List Request) → InOrder start end rs → start ≤ end
InOrder-le start end [] h = h
InOrder-le start end ((who, now) ∷ rs) h = omega (arith, h.0, InOrder-le now end rs h.1)

-- a bucket as the limiter makes and keeps it
pub record IsBucket (fine rate start : ℕ) (b : TokenBucket) : Type 0 where
  pub full : b.max_token ≡ rate * (token fine)
  pub rated : b.refill_hz ≡ rate
  pub bounded : b.tokens ≤ rate * (token fine)
  pub past : b.last_time ≤ start

module _ (fine : ℕ) (add_refill : ℕ → ℕ → ℕ → ℕ) where
  -- the requests of `client` that pass, out of the requests of all clients in their order
  unfoldable pub admitted : ℕ → Text → List Request → Buckets → ℕ
  admitted rate client [] m = 0
  admitted rate client ((who, now) ∷ rs) m =
      let (m', passes) = rate_limiter fine add_refill rate now who m in
      let rest = admitted rate client rs m' in
      if text_eq who client then (if passes then suc rest else rest) else rest

  -- the buckets after some requests
  unfoldable pub serve : ℕ → List Request → Buckets → Buckets
  serve rate [] m = m
  serve rate ((who, now) ∷ rs) m = serve rate rs (rate_limiter fine add_refill rate now who m).0

module _ (fine : ℕ) (add_refill : ℕ → ℕ → ℕ → ℕ) (error : ℕ) where
  -- float64 rounds the sum of a refill up by at most `error`.
  pub record IsNear : Type 0 where
    pub rounded :
        (tokens elapsed rate : ℕ)
        → add_refill tokens elapsed rate ≤ tokens + elapsed * rate * fine + error

module _ (fine : ℕ) (add_refill : ℕ → ℕ → ℕ → ℕ) (error : ℕ)
    (near : IsNear fine add_refill error) where
  -- what a bucket can still give until `end`
  abbrev budget : ℕ → ℕ → TokenBucket → ℕ
  budget rate end b = b.tokens + (end - b.last_time) * rate * fine

  allow-IsBucket :
      (rate start now : ℕ) (b : TokenBucket)
      → start ≤ now
      → IsBucket fine rate start b
      → IsBucket fine rate now (allow fine add_refill now b).0
  unfolding allow
  allow-IsBucket rate start now b later h = ground arith

  abbrev spent : Bool → ℕ
  spent true = (token fine)
  spent false = 0

  elapsed_split :
      (last now end rate : ℕ)
      → last ≤ now
      → now ≤ end
      → (end - last) * rate * fine ≡ (now - last) * rate * fine + (end - now) * rate * fine
  elapsed_split last now end rate h k =
      let e : end - last ≡ (now - last) + (end - now) = omega arith in rw e (grind arith)

  -- a request takes what it passes with out of the budget
  allow-budget :
      (rate now end : ℕ) (b : TokenBucket)
      → now ≤ end
      → IsBucket fine rate now b
      → spent (allow fine add_refill now b).1 + budget rate end (allow fine add_refill now b).0
        ≤ budget rate end b + error
  unfolding allow
  allow-budget rate now end b before h = ground (
    arith,
    elapsed_split b.last_time now end rate h.past before,
    ap (λ (r : ℕ). (now - b.last_time) * r * fine) h.rated,
    near.rounded b.tokens (now - b.last_time) b.refill_hz,
  )

  -- what is left for a client whose bucket is there, or will be made
  potential : ℕ → ℕ → ℕ → Option TokenBucket → ℕ
  potential rate start end none = rate * (token fine) + (end - start) * rate * fine
  potential rate start end (some b) = budget rate end b

  abbrev pub IsKept : ℕ → ℕ → Option TokenBucket → Type 0
  IsKept rate start none = Unit
  IsKept rate start (some b) = IsBucket fine rate start b

  IsKept-later :
      (rate start now : ℕ) (o : Option TokenBucket)
      → start ≤ now
      → IsKept rate start o
      → IsKept rate now o
  IsKept-later rate start now none h k = tt
  IsKept-later rate start now (some b) h k = ground arith

  potential_later :
      (rate start now end : ℕ) (o : Option TokenBucket)
      → start ≤ now
      → now ≤ end
      → potential rate now end o ≤ potential rate start end o
  unfolding potential
  potential_later rate start now end none h k = omega (arith, elapsed_split start now end rate h k)
  potential_later rate start now end (some b) h k = omega arith

  -- the bucket that serves a request of the client
  served-IsBucket :
      (rate now : ℕ) (client : Text) (m : Buckets)
      → IsKept rate now (bucket_of client m)
      → IsBucket fine rate now (bucket_or_new fine add_refill rate now client m)
  unfolding bucket_or_new
  served-IsBucket rate now client m h = elim (Option-cases (bucket_of client m)) [
    | inl e ↦
        rw (e, bucket_or_new)
          (record { full = refl; rated = refl; bounded = omega arith; past = omega arith })
    | inr (b, e) ↦ rw (e, bucket_or_new) (rw e at h)
  ]

  served_budget :
      (rate now end : ℕ) (client : Text) (m : Buckets)
      → budget rate end (bucket_or_new fine add_refill rate now client m)
        ≤ potential rate now end (bucket_of client m)
  unfolding bucket_or_new potential
  served_budget rate now end client m = elim (Option-cases (bucket_of client m)) [
    | inl e ↦ rw (e, bucket_or_new) (omega arith)
    | inr (b, e) ↦ rw (e, bucket_or_new) (omega arith)
  ]

  limiter_self :
      (rate now : ℕ) (client : Text) (m : Buckets)
      → bucket_of client (rate_limiter fine add_refill rate now client m).0
        ≡ some (allow fine add_refill now (bucket_or_new fine add_refill rate now client m)).0
  unfolding rate_limiter bucket_of
  limiter_self rate now client m = rw (text_eq_refl client) refl

  limiter_other :
      (rate now : ℕ) (who client : Text) (m : Buckets)
      → text_eq who client ≡ false
      → bucket_of client (rate_limiter fine add_refill rate now who m).0 ≡ bucket_of client m
  unfolding rate_limiter bucket_of
  limiter_other rate now who client m h = rw h refl

  count_one :
      (b : Bool) (n : ℕ) → (if b then suc n else n) * (token fine) ≡ spent b + n * (token fine)
  count_one true n = omega arith
  count_one false n = omega arith

  served_first :
      (rate now end : ℕ) (client : Text) (m : Buckets) (rest extra : ℕ)
      → now ≤ end
      → IsKept rate now (bucket_of client m)
      → rest * (token fine)
        ≤ potential rate now end
            (bucket_of client (rate_limiter fine add_refill rate now client m).0)
          + extra
      → (if (rate_limiter fine add_refill rate now client m).1 then suc rest else rest)
          * (token fine)
        ≤ potential rate now end (bucket_of client m) + error + extra
  unfolding rate_limiter potential
  served_first rate now end client m rest extra before kept h =
      let b : TokenBucket = bucket_or_new fine add_refill rate now client m in
      omega (
        arith,
        count_one (allow fine add_refill now b).1 rest,
        allow-budget rate now end b before (served-IsBucket rate now client m kept),
        served_budget rate now end client m,
        rw (limiter_self rate now client m) at h,
      )

  admitted_within :
      (rate start end : ℕ) (client : Text) (rs : List Request) (m : Buckets)
      → InOrder start end rs
      → IsKept rate start (bucket_of client m)
      → admitted fine add_refill rate client rs m * (token fine)
        ≤ potential rate start end (bucket_of client m) + error * length rs
  unfolding admitted
  admitted_within rate start end client [] m h k = omega arith
  admitted_within rate start end client ((who, now) ∷ rs) m h k =
      let later = IsKept-later rate start now (bucket_of client m) h.0 k in
      let before = InOrder-le now end rs h.1 in
      let less = potential_later rate start now end (bucket_of client m) h.0 before in
      elim (Bool-cases (text_eq who client)) [
        | inr e ↦
            let rest =
              admitted_within rate now end client rs (rate_limiter fine add_refill rate now who m).0
                h.1 (rw (limiter_other rate now who client m e) later) in
            rw e (omega (arith, rw (limiter_other rate now who client m e) at rest))
        | inl e ↦
            let same : who ≡ client = (text_eq_iff who client).0 e in
            let rest =
              admitted_within rate now end client rs
                (rate_limiter fine add_refill rate now client m).0 h.1
                (rw (limiter_self rate now client m) (
                  allow-IsBucket rate now now (bucket_or_new fine add_refill rate now client m)
                    (omega arith) (served-IsBucket rate now client m later))) in
            rw (same, text_eq_refl client)
              (omega (
                arith,
                served_first rate now end client m _ (error * length rs) before later rest,
                less,
              ))
      ]

  allow-full :
      (rate now : ℕ) (b : TokenBucket)
      → IsBucket fine rate now b
      → (spent (allow fine add_refill now b).1 + (allow fine add_refill now b).0.tokens
          ≤ rate * (token fine))
        × ((allow fine add_refill now b).0.last_time ≡ now)
  unfolding allow
  allow-full rate now b h = ground arith

  more_rounding : (n : ℕ) → error * n ≤ error * suc n
  more_rounding n = grind arith

  -- a first request of the client itself
  since_first :
      (rate start now end : ℕ) (client : Text) (m : Buckets) (rs : List Request)
      → start ≤ now
      → now ≤ end
      → InOrder now end rs
      → IsKept rate now (bucket_of client m)
      → potential rate now end none ≤ potential rate start end none
      → error * length rs ≤ error * suc (length rs)
      → (if (rate_limiter fine add_refill rate now client m).1
            then suc (
                admitted fine add_refill rate client rs
                  (rate_limiter fine add_refill rate now client m).0)
            else admitted fine add_refill rate client rs
                (rate_limiter fine add_refill rate now client m).0)
          * (token fine)
        ≤ rate * (token fine) + (end - start) * rate * fine + error * suc (length rs)
  unfolding rate_limiter potential
  since_first rate start now end client m rs later before h kept less more =
      let b : TokenBucket = bucket_or_new fine add_refill rate now client m in
      let served = served-IsBucket rate now client m kept in
      let full = allow-full rate now b served in
      let rest =
        admitted_within rate now end client rs (rate_limiter fine add_refill rate now client m).0 h
          (rw (limiter_self rate now client m)
            (allow-IsBucket rate now now b (omega arith) served)) in
      let rest' = rw (limiter_self rate now client m) at rest in
      let rest'' = rw full.1 at rest' in
      omega (
        arith,
        count_one (allow fine add_refill now b).1 (
            admitted fine add_refill rate client rs
              (rate_limiter fine add_refill rate now client m).0),
        full.0,
        rest'',
        less,
        more,
      )

  -- the requests that pass from a time on, whatever tokens the bucket has kept until then
  admitted_since :
      (rate start end : ℕ) (client : Text) (rs : List Request) (m : Buckets)
      → InOrder start end rs
      → IsKept rate start (bucket_of client m)
      → admitted fine add_refill rate client rs m * (token fine)
        ≤ rate * (token fine) + (end - start) * rate * fine + error * length rs
  unfolding admitted potential
  admitted_since rate start end client [] m h k = omega arith
  admitted_since rate start end client ((who, now) ∷ rs) m h k =
      let before = InOrder-le now end rs h.1 in
      let less = potential_later rate start now end none h.0 before in
      let more = more_rounding (length rs) in
      elim (Bool-cases (text_eq who client)) [
        | inr e ↦
            let kept = IsKept-later rate start now (bucket_of client m) h.0 k in
            let rest =
              admitted_since rate now end client rs (rate_limiter fine add_refill rate now who m).0
                h.1 (rw (limiter_other rate now who client m e) kept) in
            rw e (omega (arith, rest, less, more))
        | inl e ↦
            let same : who ≡ client = (text_eq_iff who client).0 e in
            rw (same, text_eq_refl client)
              (since_first rate start now end client m rs h.0 before h.1
                (IsKept-later rate start now (bucket_of client m) h.0 k) less more)
      ]

  limited-IsKept :
      (rate start now : ℕ) (who client : Text) (m : Buckets)
      → start ≤ now
      → IsKept rate start (bucket_of client m)
      → IsKept rate now (bucket_of client (rate_limiter fine add_refill rate now who m).0)
  limited-IsKept rate start now who client m later k =
      let kept = IsKept-later rate start now (bucket_of client m) later k in
      elim (Bool-cases (text_eq who client)) [
        | inr e ↦ rw (limiter_other rate now who client m e) kept
        | inl e ↦
            let same : who ≡ client = (text_eq_iff who client).0 e in
            rw same (
              rw (limiter_self rate now client m) (
                allow-IsBucket rate now now (bucket_or_new fine add_refill rate now client m)
                  (omega arith) (served-IsBucket rate now client m kept)))
      ]

  serve-IsKept :
      (rate start end : ℕ) (client : Text) (rs : List Request) (m : Buckets)
      → InOrder start end rs
      → IsKept rate start (bucket_of client m)
      → IsKept rate end (bucket_of client (serve fine add_refill rate rs m))
  unfolding serve
  serve-IsKept rate start end client [] m h k = IsKept-later rate start end (bucket_of client m) h k
  serve-IsKept rate start end client ((who, now) ∷ rs) m h k =
      serve-IsKept rate now end client rs _ h.1 (limited-IsKept rate start now who client m h.0 k)

  no_buckets : (rate : ℕ) (client : Text) → IsKept rate 0 (bucket_of client [])
  unfolding bucket_of
  no_buckets rate client = tt

  -- In any stretch of time, after any requests of all clients since the start of the service, at most
  -- rate + rate * seconds requests of a client pass, and for each request in the stretch the amount by
  -- which float64 rounds a refill up. (A token is 1000000000 * fine, and the times are nanoseconds.)
  pub admitted_bounded :
      (rate start end : ℕ) (client : Text) (earlier rs : List Request)
      → InOrder 0 start earlier
      → InOrder start end rs
      → admitted fine add_refill rate client rs (serve fine add_refill rate earlier [])
          * (token fine)
        ≤ rate * (token fine) + (end - start) * rate * fine + error * length rs
  admitted_bounded rate start end client earlier rs before h =
      admitted_since rate start end client rs (serve fine add_refill rate earlier []) h
        (serve-IsKept rate 0 start client earlier [] before (no_buckets rate client))
