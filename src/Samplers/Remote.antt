-- ===== src/Samplers/Remote.antt =====
-- `RemotelyControlledSampler` of samplers/RemotelyControlledSampler.h and .cpp, over the other samplers.
-- The JSON parser, the socket and the clock are parameters. The mutex is held by `isSampled` and by
-- what `updateSampler` does after the request, so that each is one step.
pub mod Updates
pub mod Polling
use jaeger_client_cpp.Base.{
  ℕ, ◌+◌, ◌≡◌, Bool, true, false, not, Option, none, some, List, [], ◌∷◌, ◌++◌, Bytes, codes,
  if◌then◌else◌, ℤ, pos, negsuc, ◌>>=◌, to_unsigned, ◌==◌,
}
use jaeger_client_cpp.TraceId.{TraceId}
use jaeger_client_cpp.Metrics.{Metrics}
use jaeger_client_cpp.Uri.{query_escape}
use jaeger_client_cpp.Uri.Parts.{Uri, parse}
use jaeger_client_cpp.Http.{Response, http_get}
use jaeger_client_cpp.Tracer.{SamplingStatus}
use jaeger_client_cpp.Samplers.{
  Arithmetic, const_status, RateLimiter, new_rate_limiting, rate_limiting_status, Probabilistic,
  new_probabilistic, probabilistic_status, Guaranteed, guaranteed_status, Adaptive, new_adaptive,
  adaptive_status, update_adaptive, Strategies,
}

-- A sampler that is not itself remotely controlled, by its `type()`.
pub data AnySampler (D : Type 0) : Type 0 where
  const_sampler : Bool → AnySampler D
  probabilistic_sampler : Probabilistic D → AnySampler D
  rate_limiting_sampler : RateLimiter D → AnySampler D
  guaranteed_sampler : Guaranteed D → AnySampler D
  adaptive_sampler : Adaptive D → AnySampler D

pub data StrategyType : Type 0 where
  probabilistic rate_limiting : StrategyType

-- `SamplingStrategyResponse`: an optional field that is not set is `none`.
pub record StrategyResponse (D : Type 0) : Type 0 where
  pub strategy_type : StrategyType
  pub probabilistic_sampling : Option D
  pub rate_limiting_sampling : Option ℤ
  pub operation_sampling : Option (Strategies D)

abbrev pub empty_response : {D : Type 0} → StrategyResponse D
empty_response = record {
  strategy_type = probabilistic;
  probabilistic_sampling = none;
  rate_limiting_sampling = none;
  operation_sampling = none;
}

-- `HTTPSamplingManager`; it is connected if its constructor could connect to the server.
pub record Manager : Type 0 where
  pub server_uri : Uri
  pub connected : Bool

unfoldable pub new_manager : (Bytes → Bool) → Bytes → Manager
unfolding parse
new_manager connect server_url = record {
  server_uri = parse server_url;
  connected = connect server_url;
}

-- What `getSamplingStrategy` leaves in its result, `none` if it throws: a manager that is not connected
-- and an answer that is not 200 leave it as it was.
unfoldable pub get_sampling_strategy :
    {D : Type 0}
    → (Uri → Bytes → Option (List Bytes))
    → Bytes
    → (Bytes → Option (StrategyResponse D))
    → Manager
    → Bytes
    → Option (StrategyResponse D)
unfolding query_escape http_get
get_sampling_strategy exchange client_version read_json manager service_name =
    if not manager.connected then some empty_response else (do
      response ←
          http_get exchange client_version
            (record manager.server_uri { query = codes "service=" ++ query_escape service_name })
      elim response.status_code [
        | pos code ↦ if code == 200 then read_json response.body else some empty_response
        | negsuc code ↦ some empty_response
      ])

-- The data members that change, and the bound of the constructor.
pub record Remote (D : Type 0) : Type 0 where
  pub sampler : AnySampler D
  pub max_operations : ℤ
  pub running : Bool

abbrev pub new_remote : {D : Type 0} → AnySampler D → ℤ → Remote D
new_remote sampler max_operations = record {
  sampler = sampler;
  max_operations = max_operations;
  running = true;
}

module _ {D : Type 0} (a : Arithmetic D) where
  unfoldable pub any_status : ℕ → TraceId → Bytes → AnySampler D → SamplingStatus × AnySampler D
  any_status now id operation (const_sampler decision) =
      (const_status decision, const_sampler decision)
  any_status now id operation (probabilistic_sampler p) =
      (probabilistic_status a id p, probabilistic_sampler p)
  any_status now id operation (rate_limiting_sampler r) =
      let (status, r') = rate_limiting_status a now r in (status, rate_limiting_sampler r')
  any_status now id operation (guaranteed_sampler g) =
      let (status, g') = guaranteed_status a now id g in (status, guaranteed_sampler g')
  any_status now id operation (adaptive_sampler s) =
      let (status, s') = adaptive_status a now id operation s in (status, adaptive_sampler s')

  unfoldable pub remote_status : ℕ → TraceId → Bytes → Remote D → SamplingStatus × Remote D
  unfolding any_status
  remote_status now id operation r =
      let (status, sampler) = any_status now id operation r.sampler in
      (status, record r { sampler = sampler })

  -- `updateAdaptiveSampler`; the bound is converted to `size_t`.
  unfoldable pub update_adaptive_sampler : ℕ → Strategies D → ℤ → AnySampler D → AnySampler D
  update_adaptive_sampler now strategies max_operations (adaptive_sampler s) =
      adaptive_sampler (update_adaptive a strategies now s)
  update_adaptive_sampler now strategies max_operations _ =
      adaptive_sampler (new_adaptive a strategies (to_unsigned 64 max_operations) now)

  -- `updateRateLimitingOrProbabilisticSampler`, `none` if it throws.
  unfoldable pub new_sampler : ℕ → StrategyResponse D → Option (AnySampler D)
  new_sampler now response = elim response.probabilistic_sampling [
    | some rate ↦ some (probabilistic_sampler (new_probabilistic a rate))
    | none ↦ elim response.rate_limiting_sampling [
      | some rate ↦ some (rate_limiting_sampler (new_rate_limiting a (a.of_int rate) now))
      | none ↦ none
    ]
  ]

  -- The branches of `updateSampler` behind the request.
  unfoldable pub use_response : ℕ → StrategyResponse D → ℤ → AnySampler D → Option (AnySampler D)
  unfolding update_adaptive_sampler new_sampler
  use_response now response max_operations sampler = elim response.operation_sampling [
    | some strategies ↦ some (update_adaptive_sampler now strategies max_operations sampler)
    | none ↦ new_sampler now response
  ]

  -- `updateSampler`, with the response or `none` for an exception.
  unfoldable pub update_sampler :
      ℕ → Option (StrategyResponse D) → Remote D → Metrics → Remote D × Metrics
  unfolding use_response
  update_sampler now none r m =
      (r, record m { sampler_query_failure = m.sampler_query_failure + 1 })
  update_sampler now (some response) r m =
      let retrieved = record m { sampler_retrieved = m.sampler_retrieved + 1 } in
      elim (use_response now response r.max_operations r.sampler) [
        | none ↦ (r, record retrieved { sampler_update_failure = m.sampler_update_failure + 1 })
        | some sampler ↦ (
          record r { sampler = sampler },
          record retrieved { sampler_updated = m.sampler_updated + 1 },
        )
      ]

  -- `close`, with whether it stops the thread.
  unfoldable pub close : Remote D → Remote D × Bool
  close r = if not r.running then (r, false) else (record r { running = false }, true)

  -- `pollController`: each round has its time, the response, and whether the sampler is closed before the
  -- wait of the round ends.
  unfoldable pub poll_controller :
      List (ℕ × Option (StrategyResponse D) × Bool) → Remote D → Metrics → Remote D × Metrics
  unfolding update_sampler close
  poll_controller [] r m = (r, m)
  poll_controller ((now, response, closed) ∷ rounds) r m =
      let (r1, m1) = update_sampler now response r m in
      let r2 = if closed then (close r1).0 else r1 in
      let after = poll_controller rounds r2 m1 in if not r.running then (r, m) else after
