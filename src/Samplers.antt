-- ===== src/Samplers.antt =====
-- utils/RateLimiter.h and the samplers of samplers/: ConstSampler.h, ProbabilisticSampler.h,
-- RateLimitingSampler.h, GuaranteedThroughputProbabilisticSampler.h and AdaptiveSampler.h with their
-- .cpp files. A `double` is an element of a type with the operations of `Arithmetic`; the time of a
-- call is a parameter.
mod Tests
pub mod Limits
pub mod Operations
pub mod Remote
use jaeger_client_cpp.Base.{
  ℕ, zero, suc, ◌+◌, ◌-◌, ◌^◌, ◌≡◌, Bool, true, false, not, ◌||◌, Option, none, some, List, [], ◌∷◌,
  Bytes, codes, leb, if◌then◌else◌, length, lookup, insert, ℤ, pos, negsuc,
}
use jaeger_client_cpp.TraceId.{TraceId}
use jaeger_client_cpp.Tag.{Value, flag, real, chars, Tag}
use jaeger_client_cpp.Tracer.{SamplingStatus}

-- The operations of `double` that the samplers use: `of_int` converts an integer, `seconds` converts
-- nanoseconds, which may be negative, and `scaled` is the product with the largest word, as a word, with whether it is that word.
pub record Arithmetic (D : Type 0) : Type 0 where
  pub zero_value : D
  pub one_value : D
  pub add : D → D → D
  pub sub : D → D → D
  pub mul : D → D → D
  pub lt : D → D → Bool
  pub le : D → D → Bool
  pub eq : D → D → Bool
  pub of_int : ℤ → D
  pub seconds : ℤ → D
  pub scaled : D → ℕ × Bool
  pub bits : D → ℕ

abbrev sampler_tags : Bytes → Value → List Tag
sampler_tags name param =
    record { key = codes "sampler.type"; value = chars name }
    ∷ record { key = codes "sampler.param"; value = param }
    ∷ []

-- `ConstSampler`
unfoldable pub const_status : Bool → SamplingStatus
const_status decision = record {
  is_sampled = decision;
  tags = sampler_tags (codes "const") (flag decision);
}

pub record RateLimiter (D : Type 0) : Type 0 where
  pub credits_per_second : D
  pub max_balance : D
  pub balance : D
  pub last_tick : ℕ

pub record Probabilistic (D : Type 0) : Type 0 where
  pub sampling_rate : D
  pub sampling_boundary : ℕ

pub record Guaranteed (D : Type 0) : Type 0 where
  pub probabilistic : Probabilistic D
  pub sampling_rate : D
  pub lower_bound_sampler : RateLimiter D
  pub lower_bound : D

pub record Adaptive (D : Type 0) : Type 0 where
  pub samplers : List (Bytes × Guaranteed D)
  pub default_sampler : Probabilistic D
  pub lower_bound : D
  pub max_operations : ℕ

-- `PerOperationSamplingStrategies`, whose upper bound may be unset.
pub record Strategies (D : Type 0) : Type 0 where
  pub default_sampling_probability : D
  pub default_lower_bound : D
  pub default_upper_bound : Option D
  pub per_operation : List (Bytes × D)

-- The signed difference of two points of time.
unfoldable pub elapsed : ℕ → ℕ → ℤ
elapsed now last_tick =
    if leb last_tick now then pos (now - last_tick) else negsuc (last_tick - now - 1)

module _ {D : Type 0} (a : Arithmetic D) where
  -- `std::min` and `std::max`
  unfoldable pub min_of : D → D → D
  min_of x y = if a.lt y x then y else x

  unfoldable pub max_of : D → D → D
  max_of x y = if a.lt x y then y else x

  unfoldable pub new_limiter : D → D → ℕ → RateLimiter D
  new_limiter credits max_balance now = record {
    credits_per_second = credits;
    max_balance = max_balance;
    balance = max_balance;
    last_tick = now;
  }

  -- The balance after the credits of the elapsed time.
  unfoldable pub earned : ℕ → RateLimiter D → D
  unfolding elapsed
  earned now r =
      let credit = a.mul (a.seconds (elapsed now r.last_tick)) r.credits_per_second in
      let balance = a.add r.balance credit in
      if a.lt r.max_balance balance then r.max_balance else balance

  unfoldable pub check_credit : ℕ → D → RateLimiter D → Bool × RateLimiter D
  check_credit now cost r =
      let balance = earned now r in
      if a.le cost balance
      then (true, record r { last_tick = now; balance = a.sub balance cost })
      else (false, record r { last_tick = now; balance = balance })

  -- `RateLimitingSampler`, whose state is its limiter and whose tags repeat the rate.
  unfoldable pub new_rate_limiting : D → ℕ → RateLimiter D
  unfolding new_limiter max_of
  new_rate_limiting rate now = new_limiter rate (max_of rate a.one_value) now

  unfoldable pub rate_limiting_status : ℕ → RateLimiter D → SamplingStatus × RateLimiter D
  unfolding check_credit
  rate_limiting_status now r =
      let (sampled, r') = check_credit now a.one_value r in
      (
        record {
          is_sampled = sampled;
          tags = sampler_tags (codes "ratelimiting") (real (a.bits r.credits_per_second));
        },
        r',
      )

  unfoldable pub new_probabilistic : D → Probabilistic D
  unfolding min_of max_of
  new_probabilistic rate =
      let clamped = max_of a.zero_value (min_of rate a.one_value) in
      let (product, is_largest) = a.scaled clamped in
      record {
        sampling_rate = clamped;
        sampling_boundary = if is_largest then 2 ^ 64 - 1 else product;
      }

  unfoldable pub probabilistic_status : TraceId → Probabilistic D → SamplingStatus
  probabilistic_status id p = record {
    is_sampled = leb id.low p.sampling_boundary;
    tags = sampler_tags (codes "probabilistic") (real (a.bits p.sampling_rate));
  }

  unfoldable pub new_guaranteed : D → D → ℕ → Guaranteed D
  unfolding new_probabilistic new_rate_limiting
  new_guaranteed lower_bound rate now =
      let p = new_probabilistic rate in
      record {
        probabilistic = p;
        sampling_rate = p.sampling_rate;
        lower_bound_sampler = new_rate_limiting lower_bound now;
        lower_bound = lower_bound;
      }

  unfoldable pub guaranteed_status : ℕ → TraceId → Guaranteed D → SamplingStatus × Guaranteed D
  guaranteed_status now id g =
      let status = probabilistic_status id g.probabilistic in
      let (limited, limiter) = rate_limiting_status now g.lower_bound_sampler in
      let g' = record g { lower_bound_sampler = limiter } in
      if status.is_sampled then (status, g') else (
        record {
          is_sampled = limited.is_sampled;
          tags = sampler_tags (codes "lowerbound") (real (a.bits g.sampling_rate));
        },
        g',
      )

  unfoldable pub update_guaranteed : D → D → ℕ → Guaranteed D → Guaranteed D
  unfolding new_probabilistic new_rate_limiting
  update_guaranteed lower_bound rate now g =
      let p = new_probabilistic rate in
      let rated =
        if a.eq g.sampling_rate rate
        then g
        else record g { probabilistic = p; sampling_rate = p.sampling_rate } in
      if a.eq g.lower_bound lower_bound then rated else record rated {
        lower_bound_sampler = new_rate_limiting lower_bound now;
        lower_bound = lower_bound;
      }

  -- `samplersFromStrategies`
  unfoldable pub samplers_from :
      D → ℕ → List (Bytes × D) → List (Bytes × Guaranteed D) → List (Bytes × Guaranteed D)
  samplers_from lower_bound now [] m = m
  samplers_from lower_bound now ((operation, rate) ∷ rest) m =
      samplers_from lower_bound now rest (insert operation (new_guaranteed lower_bound rate now) m)

  unfoldable pub new_adaptive : Strategies D → ℕ → ℕ → Adaptive D
  unfolding samplers_from
  new_adaptive strategies max_operations now = record {
    samplers = samplers_from strategies.default_lower_bound now strategies.per_operation [];
    default_sampler = new_probabilistic strategies.default_sampling_probability;
    lower_bound = strategies.default_lower_bound;
    max_operations = max_operations;
  }

  -- The sampler of an operation decides, and its state is kept.
  unfoldable pub ask : ℕ → TraceId → Bytes → Guaranteed D → Adaptive D → SamplingStatus × Adaptive D
  ask now id operation g s =
      let (status, g') = guaranteed_status now id g in
      (status, record s { samplers = insert operation g' s.samplers })

  unfoldable pub adaptive_status : ℕ → TraceId → Bytes → Adaptive D → SamplingStatus × Adaptive D
  unfolding ask
  adaptive_status now id operation s = elim (lookup operation s.samplers) [
    | some g ↦ ask now id operation g s
    | none ↦
        if leb s.max_operations (length s.samplers)
        then (probabilistic_status id s.default_sampler, s)
        else ask now id operation (new_guaranteed s.lower_bound s.default_sampler.sampling_rate now)
            s
  ]

  -- `update`: only the samplers of operations change.
  unfoldable pub update_samplers :
      D → ℕ → List (Bytes × D) → List (Bytes × Guaranteed D) → List (Bytes × Guaranteed D)
  update_samplers lower_bound now [] m = m
  update_samplers lower_bound now ((operation, rate) ∷ rest) m =
      let updated : Guaranteed D = elim (lookup operation m) [
        | none ↦ new_guaranteed lower_bound rate now
        | some g ↦ update_guaranteed lower_bound rate now g
      ] in
      update_samplers lower_bound now rest (insert operation updated m)

  unfoldable pub update_adaptive : Strategies D → ℕ → Adaptive D → Adaptive D
  unfolding update_samplers
  update_adaptive strategies now s = record s {
    samplers =
        update_samplers strategies.default_lower_bound now strategies.per_operation s.samplers;
  }
