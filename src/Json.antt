-- ===== src/Json.antt =====
-- samplers/RemoteSamplingJSON.h and baggage/RemoteRestrictionJSON.h. The JSON library is a parameter.
mod Tests
pub mod RoundTrip
use jaeger_client_cpp.Base.{
  ℕ, ◌≡◌, Bool, true, false, Option, none, some, List, [], ◌∷◌, map, Bytes, codes, bytes_eq,
  if◌then◌else◌, ℤ, ◌>>=◌, to_signed, to_unsigned,
}
use jaeger_client_cpp.Samplers.{Strategies}
use jaeger_client_cpp.Samplers.Remote.{StrategyType, probabilistic, rate_limiting, StrategyResponse}

-- What the code uses of `nlohmann::json`: `at`, which throws for a missing key, `find`, assignment to a
-- key, and the conversions, which may throw.
pub record Json (D J : Type 0) : Type 0 where
  pub at_key : J → Bytes → Option J
  pub find : J → Bytes → Option J
  pub set_key : Bytes → J → J → J
  pub nothing : J
  pub of_string : Bytes → J
  pub as_string : J → Option Bytes
  pub of_double : D → J
  pub as_double : J → Option D
  pub of_int : ℤ → J
  pub as_int16 : J → Option ℤ
  pub as_int32 : J → Option ℤ
  pub of_list : List J → J
  pub as_list : J → Option (List J)

abbrev pub IsInt : ℕ → ℤ → Type 0
IsInt bits z = to_signed bits (to_unsigned bits z) ≡ z

-- What the library's documentation says of them.
pub record IsJson {D J : Type 0} (j : Json D J) : Type 0 where
  pub at_same : (k : Bytes) (v o : J) → j.at_key (j.set_key k v o) k ≡ some v
  pub at_other :
      (k k' : Bytes) (v o : J)
      → bytes_eq k k' ≡ false
      → j.at_key (j.set_key k v o) k' ≡ j.at_key o k'
  pub find_same : (k : Bytes) (v o : J) → j.find (j.set_key k v o) k ≡ some v
  pub find_other :
      (k k' : Bytes) (v o : J) → bytes_eq k k' ≡ false → j.find (j.set_key k v o) k' ≡ j.find o k'
  pub find_nothing : (k : Bytes) → j.find j.nothing k ≡ none
  pub string_back : (s : Bytes) → j.as_string (j.of_string s) ≡ some s
  pub double_back : (d : D) → j.as_double (j.of_double d) ≡ some d
  pub int16_back : (z : ℤ) → IsInt 16 z → j.as_int16 (j.of_int z) ≡ some z
  pub int32_back : (z : ℤ) → IsInt 32 z → j.as_int32 (j.of_int z) ≡ some z
  pub list_back : (l : List J) → j.as_list (j.of_list l) ≡ some l

-- The conversion of the elements of a vector.
unfoldable pub each : {A B : Type 0} → (A → Option B) → List A → Option (List B)
each f [] = some []
each f (x ∷ xs) = do y ← f x; ys ← each f xs; some (y ∷ ys)

module _ {D J : Type 0} (j : Json D J) where
  unfoldable pub strategy_type_to_json : StrategyType → J
  strategy_type_to_json probabilistic = j.of_string (codes "PROBABILISTIC")
  strategy_type_to_json rate_limiting = j.of_string (codes "RATE_LIMITING")

  unfoldable pub strategy_type_of_name : Bytes → Option StrategyType
  strategy_type_of_name name =
      if bytes_eq name (codes "PROBABILISTIC")
      then some probabilistic
      else if bytes_eq name (codes "RATE_LIMITING")
      then some rate_limiting
      else none

  unfoldable pub strategy_type_from_json : J → Option StrategyType
  unfolding strategy_type_of_name
  strategy_type_from_json json = do name ← j.as_string json; strategy_type_of_name name

  -- `ProbabilisticSamplingStrategy`, by its rate.
  unfoldable pub probabilistic_to_json : D → J
  probabilistic_to_json rate = j.set_key (codes "samplingRate") (j.of_double rate) j.nothing

  unfoldable pub probabilistic_from_json : J → Option D
  probabilistic_from_json json = do rate ← j.at_key json (codes "samplingRate"); j.as_double rate

  -- `RateLimitingSamplingStrategy`, by its rate.
  unfoldable pub rate_limiting_to_json : ℤ → J
  rate_limiting_to_json rate = j.set_key (codes "maxTracesPerSecond") (j.of_int rate) j.nothing

  unfoldable pub rate_limiting_from_json : J → Option ℤ
  rate_limiting_from_json json = do
    rate ← j.at_key json (codes "maxTracesPerSecond")
    j.as_int16 rate

  -- `OperationSamplingStrategy`
  unfoldable pub operation_to_json : Bytes × D → J
  unfolding probabilistic_to_json
  operation_to_json (operation, rate) =
      j.set_key (codes "probabilisticSampling") (probabilistic_to_json rate)
        (j.set_key (codes "operation") (j.of_string operation) j.nothing)

  unfoldable pub operation_from_json : J → Option (Bytes × D)
  unfolding probabilistic_from_json
  operation_from_json json = do
    name ← j.at_key json (codes "operation")
    operation ← j.as_string name
    strategy ← j.at_key json (codes "probabilisticSampling")
    rate ← probabilistic_from_json strategy
    some (operation, rate)

  -- The key of an optional field.
  unfoldable pub set_optional : {A : Type 0} → Bytes → (A → J) → Option A → J → J
  set_optional k to_json none json = json
  set_optional k to_json (some value) json = j.set_key k (to_json value) json

  unfoldable pub find_optional : {A : Type 0} → Bytes → (J → Option A) → J → Option (Option A)
  find_optional k from_json json = elim (j.find json k) [
    | none ↦ some none
    | some found ↦ elim (from_json found) [ none ↦ none | some value ↦ some (some value) ]
  ]

  -- `PerOperationSamplingStrategies`
  unfoldable pub strategies_to_json : Strategies D → J
  unfolding operation_to_json set_optional
  strategies_to_json s =
      set_optional (codes "defaultUpperBoundTracesPerSecond") j.of_double s.default_upper_bound (
        j.set_key (codes "perOperationStrategies")
          (j.of_list (map operation_to_json s.per_operation))
          (j.set_key (codes "defaultLowerBoundTracesPerSecond") (j.of_double s.default_lower_bound)
            (j.set_key (codes "defaultSamplingProbability")
              (j.of_double s.default_sampling_probability) j.nothing)))

  unfoldable pub strategies_from_json : J → Option (Strategies D)
  unfolding operation_from_json find_optional each
  strategies_from_json json = do
    p ← j.at_key json (codes "defaultSamplingProbability")
    probability ← j.as_double p
    l ← j.at_key json (codes "defaultLowerBoundTracesPerSecond")
    lower_bound ← j.as_double l
    o ← j.at_key json (codes "perOperationStrategies")
    elements ← j.as_list o
    per_operation ← each operation_from_json elements
    upper_bound ← find_optional (codes "defaultUpperBoundTracesPerSecond") j.as_double json
    some (record {
      default_sampling_probability = probability;
      default_lower_bound = lower_bound;
      default_upper_bound = upper_bound;
      per_operation = per_operation;
    })

  -- `SamplingStrategyResponse`
  unfoldable pub response_to_json : StrategyResponse D → J
  unfolding strategy_type_to_json probabilistic_to_json rate_limiting_to_json strategies_to_json
      set_optional
  response_to_json r =
      set_optional (codes "operationSampling") strategies_to_json r.operation_sampling (
        set_optional (codes "rateLimitingSampling") rate_limiting_to_json r.rate_limiting_sampling (
          set_optional (codes "probabilisticSampling") probabilistic_to_json
            r.probabilistic_sampling
            (j.set_key (codes "strategyType") (strategy_type_to_json r.strategy_type) j.nothing)))

  unfoldable pub response_from_json : J → Option (StrategyResponse D)
  unfolding strategy_type_from_json find_optional probabilistic_from_json rate_limiting_from_json
      strategies_from_json
  response_from_json json = do
    t ← j.at_key json (codes "strategyType")
    strategy_type ← strategy_type_from_json t
    p ← find_optional (codes "probabilisticSampling") probabilistic_from_json json
    l ← find_optional (codes "rateLimitingSampling") rate_limiting_from_json json
    o ← find_optional (codes "operationSampling") strategies_from_json json
    some (record {
      strategy_type = strategy_type;
      probabilistic_sampling = p;
      rate_limiting_sampling = l;
      operation_sampling = o;
    })

  -- `BaggageRestriction`, by its key and its length.
  unfoldable pub restriction_to_json : Bytes × ℤ → J
  restriction_to_json (baggage_key, max_value_length) =
      j.set_key (codes "maxValueLength") (j.of_int max_value_length)
        (j.set_key (codes "baggageKey") (j.of_string baggage_key) j.nothing)

  unfoldable pub restriction_from_json : J → Option (Bytes × ℤ)
  restriction_from_json json = do
    k ← j.at_key json (codes "baggageKey")
    baggage_key ← j.as_string k
    m ← j.at_key json (codes "maxValueLength")
    max_value_length ← j.as_int32 m
    some (baggage_key, max_value_length)

  -- `BaggageRestrictionList`, whose `success` is set.
  unfoldable pub restrictions_to_json : List (Bytes × ℤ) → J
  unfolding restriction_to_json
  restrictions_to_json success = j.of_list (map restriction_to_json success)

  unfoldable pub restrictions_from_json : J → Option (List (Bytes × ℤ))
  unfolding restriction_from_json each
  restrictions_from_json json = do elements ← j.as_list json; each restriction_from_json elements
