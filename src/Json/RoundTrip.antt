-- ===== src/Json/RoundTrip.antt =====
-- What is written as JSON is read back.
use jaeger_client_cpp.Base.{
  ◌≡◌, refl, ◌∙◌, false, Option, none, some, List, [], ◌∷◌, map, Bytes, codes, bytes_eq, ℤ, ◌>>=◌,
  All, Always,
}
use jaeger_client_cpp.Samplers.{Strategies}
use jaeger_client_cpp.Samplers.Remote.{StrategyType, probabilistic, rate_limiting, StrategyResponse}
use jaeger_client_cpp.Json.{
  Json, IsInt, IsJson, each, strategy_type_to_json, strategy_type_of_name, strategy_type_from_json,
  probabilistic_to_json, probabilistic_from_json, rate_limiting_to_json, rate_limiting_from_json,
  operation_to_json, operation_from_json, set_optional, find_optional, strategies_to_json,
  strategies_from_json, response_to_json, response_from_json, restriction_to_json,
  restriction_from_json, restrictions_to_json, restrictions_from_json,
}

each-map :
    {A B : Type 0} (P : A → Type 0) (to : A → B) (from : B → Option A) (xs : List A)
    → ((x : A) → P x → from (to x) ≡ some x)
    → All P xs
    → each from (map to xs) ≡ some xs
unfolding each ◌>>=◌
each-map P to from [] back h = refl
each-map P to from (x ∷ xs) back (p, h) =
    rw (back x p, each, ◌>>=◌, each-map P to from xs back h) refl

abbrev Anything : {A : Type 0} → A → Type 0
Anything a = Unit {0}

All-Anything : {A : Type 0} (xs : List A) → All Anything xs
All-Anything [] = tt
All-Anything (x ∷ xs) = (tt, All-Anything xs)

Always-Anything : {A : Type 0} (o : Option A) → Always Anything o
Always-Anything none = tt
Always-Anything (some a) = tt

module _ {D J : Type 0} (j : Json D J) (h : IsJson j) where
  strategy_type-back :
      (t : StrategyType) → strategy_type_from_json j (strategy_type_to_json j t) ≡ some t
  unfolding strategy_type_from_json strategy_type_to_json strategy_type_of_name ◌>>=◌ bytes_eq
  strategy_type-back probabilistic = rw (h.string_back (codes "PROBABILISTIC")) refl
  strategy_type-back rate_limiting = rw (h.string_back (codes "RATE_LIMITING")) refl

  probabilistic-back :
      (rate : D) → probabilistic_from_json j (probabilistic_to_json j rate) ≡ some rate
  unfolding probabilistic_from_json probabilistic_to_json ◌>>=◌
  probabilistic-back rate = rw (h.at_same, h.double_back) refl

  rate_limiting-back :
      (rate : ℤ)
      → IsInt 16 rate
      → rate_limiting_from_json j (rate_limiting_to_json j rate) ≡ some rate
  unfolding rate_limiting_from_json rate_limiting_to_json ◌>>=◌
  rate_limiting-back rate i = rw (h.at_same, h.int16_back rate i) refl

  operation-back : (o : Bytes × D) → operation_from_json j (operation_to_json j o) ≡ some o
  unfolding operation_from_json ◌>>=◌
  operation-back (operation, rate) =
      let json = operation_to_json j (operation, rate) in
      let name : j.at_key json (codes "operation") ≡ some (j.of_string operation) =
        unfold operation_to_json in
        (h.at_other (codes "probabilisticSampling") (codes "operation") _ _
            (unfold bytes_eq in refl)
          ∙ h.at_same _ _ _) in
      let strategy : j.at_key json (codes "probabilisticSampling")
          ≡ some (probabilistic_to_json j rate) =
        unfold operation_to_json in h.at_same _ _ _ in
      rw
        (
          name,
          operation_from_json,
          ◌>>=◌,
          h.string_back operation,
          strategy,
          probabilistic-back rate,
        )
        refl

  -- An optional field that was written is read, if its key was free before.
  optional-back :
      {A : Type 0} (P : A → Type 0) (k : Bytes) (to : A → J) (from : J → Option A)
      (value : Option A) (json : J)
      → ((a : A) → P a → from (to a) ≡ some a)
      → Always P value
      → j.find json k ≡ none
      → find_optional j k from (set_optional j k to value json) ≡ some value
  unfolding find_optional set_optional
  optional-back P k to from none json back a free = rw (free, find_optional) refl
  optional-back P k to from (some value) json back a free =
      rw (h.find_same k (to value) json, find_optional, back value a) refl

  -- The other keys are as before.
  at-set_optional :
      {A : Type 0} (k k' : Bytes) (to : A → J) (value : Option A) (json : J)
      → bytes_eq k k' ≡ false
      → j.at_key (set_optional j k to value json) k' ≡ j.at_key json k'
  unfolding set_optional
  at-set_optional k k' to none json n = refl
  at-set_optional k k' to (some value) json n = h.at_other k k' (to value) json n

  find-set_optional :
      {A : Type 0} (k k' : Bytes) (to : A → J) (value : Option A) (json : J)
      → bytes_eq k k' ≡ false
      → j.find (set_optional j k to value json) k' ≡ j.find json k'
  unfolding set_optional
  find-set_optional k k' to none json n = refl
  find-set_optional k k' to (some value) json n = h.find_other k k' (to value) json n

  find_optional-same :
      {A : Type 0} (k : Bytes) (from : J → Option A) (x y : J)
      → j.find x k ≡ j.find y k
      → find_optional j k from x ≡ find_optional j k from y
  unfolding find_optional
  find_optional-same k from x y e = rw (e, find_optional) refl

  strategies-back : (s : Strategies D) → strategies_from_json j (strategies_to_json j s) ≡ some s
  unfolding strategies_from_json ◌>>=◌
  strategies-back s =
      let upper = codes "defaultUpperBoundTracesPerSecond" in
      let listed = codes "perOperationStrategies" in
      let lower = codes "defaultLowerBoundTracesPerSecond" in
      let probability = codes "defaultSamplingProbability" in
      let base = j.set_key probability (j.of_double s.default_sampling_probability) j.nothing in
      let bounded = j.set_key lower (j.of_double s.default_lower_bound) base in
      let elements = map (operation_to_json j) s.per_operation in
      let object = j.set_key listed (j.of_list elements) bounded in
      let json = strategies_to_json j s in
      let at_listed : j.at_key json listed ≡ some (j.of_list elements) =
        unfold strategies_to_json in
        (at-set_optional upper listed j.of_double s.default_upper_bound object
            (unfold bytes_eq in refl)
          ∙ h.at_same _ _ _) in
      let at_lower : j.at_key json lower ≡ some (j.of_double s.default_lower_bound) =
        unfold strategies_to_json in
        (at-set_optional upper lower j.of_double s.default_upper_bound object
            (unfold bytes_eq in refl)
          ∙ h.at_other listed lower _ _ (unfold bytes_eq in refl)
          ∙ h.at_same _ _ _) in
      let at_probability : j.at_key json probability
          ≡ some (j.of_double s.default_sampling_probability) =
        unfold strategies_to_json in
        (at-set_optional upper probability j.of_double s.default_upper_bound object
            (unfold bytes_eq in refl)
          ∙ h.at_other listed probability _ _ (unfold bytes_eq in refl)
          ∙ h.at_other lower probability _ _ (unfold bytes_eq in refl)
          ∙ h.at_same _ _ _) in
      let free : j.find object upper ≡ none =
        h.find_other listed upper _ _ (unfold bytes_eq in refl)
        ∙ h.find_other lower upper _ _ (unfold bytes_eq in refl)
        ∙ h.find_other probability upper _ _ (unfold bytes_eq in refl)
        ∙ h.find_nothing upper in
      let found : find_optional j upper j.as_double json ≡ some s.default_upper_bound =
        unfold strategies_to_json in
        optional-back Anything upper j.of_double j.as_double s.default_upper_bound object
          (λ d u. h.double_back d) (Always-Anything s.default_upper_bound) free in
      rw
        (
          at_probability,
          strategies_from_json,
          ◌>>=◌,
          h.double_back s.default_sampling_probability,
          at_lower,
          h.double_back s.default_lower_bound,
          at_listed,
          h.list_back elements,
          each-map Anything (operation_to_json j) (operation_from_json j) s.per_operation
              (λ o u. operation-back o) (All-Anything s.per_operation),
          found,
        )
        refl

  -- The rate of a response that limits it fits its 16 bits.
  abbrev pub IsResponse : StrategyResponse D → Type 0
  IsResponse r = Always (IsInt 16) r.rate_limiting_sampling

  -- A sampling response that is written as JSON is read back as it was: its type, each of its optional
  -- strategies and each optional bound, set or not, and the strategies of operations in their order. The
  -- JSON library keeps what is put in it, and the limiting rate fits 16 bits.
  pub response_from_json-response_to_json :
      (r : StrategyResponse D) → IsResponse r → response_from_json j (response_to_json j r) ≡ some r
  unfolding response_from_json ◌>>=◌
  response_from_json-response_to_json r i =
      let t = codes "strategyType" in
      let p = codes "probabilisticSampling" in
      let l = codes "rateLimitingSampling" in
      let o = codes "operationSampling" in
      let j0 = j.set_key t (strategy_type_to_json j r.strategy_type) j.nothing in
      let j1 = set_optional j p (probabilistic_to_json j) r.probabilistic_sampling j0 in
      let j2 = set_optional j l (rate_limiting_to_json j) r.rate_limiting_sampling j1 in
      let json = response_to_json j r in
      let at_type : j.at_key json t ≡ some (strategy_type_to_json j r.strategy_type) =
        unfold response_to_json in
        (at-set_optional o t (strategies_to_json j) r.operation_sampling j2
            (unfold bytes_eq in refl)
          ∙ at-set_optional l t (rate_limiting_to_json j) r.rate_limiting_sampling j1
              (unfold bytes_eq in refl)
          ∙ at-set_optional p t (probabilistic_to_json j) r.probabilistic_sampling j0
              (unfold bytes_eq in refl)
          ∙ h.at_same _ _ _) in
      let free : (k : Bytes) → bytes_eq t k ≡ false → j.find j0 k ≡ none =
        λ k n. h.find_other t k _ _ n ∙ h.find_nothing k in
      let found_o : find_optional j o (strategies_from_json j) json ≡ some r.operation_sampling =
        unfold response_to_json in
        optional-back Anything o (strategies_to_json j) (strategies_from_json j)
          r.operation_sampling j2 (λ s u. strategies-back s) (Always-Anything r.operation_sampling)
          (find-set_optional l o (rate_limiting_to_json j) r.rate_limiting_sampling j1
              (unfold bytes_eq in refl)
            ∙ find-set_optional p o (probabilistic_to_json j) r.probabilistic_sampling j0
                (unfold bytes_eq in refl)
            ∙ free o (unfold bytes_eq in refl)) in
      let found_l : find_optional j l (rate_limiting_from_json j) json
          ≡ some r.rate_limiting_sampling =
        unfold response_to_json in
        (find_optional-same l (rate_limiting_from_json j) _ j2 (
            find-set_optional o l (strategies_to_json j) r.operation_sampling j2
              (unfold bytes_eq in refl))
          ∙ optional-back (IsInt 16) l (rate_limiting_to_json j) (rate_limiting_from_json j)
              r.rate_limiting_sampling j1 rate_limiting-back i
              (find-set_optional p l (probabilistic_to_json j) r.probabilistic_sampling j0
                  (unfold bytes_eq in refl)
                ∙ free l (unfold bytes_eq in refl))) in
      let found_p : find_optional j p (probabilistic_from_json j) json
          ≡ some r.probabilistic_sampling =
        unfold response_to_json in
        (find_optional-same p (probabilistic_from_json j) _ j1 (
            find-set_optional o p (strategies_to_json j) r.operation_sampling j2
              (unfold bytes_eq in refl)
            ∙ find-set_optional l p (rate_limiting_to_json j) r.rate_limiting_sampling j1
                (unfold bytes_eq in refl))
          ∙ optional-back Anything p (probabilistic_to_json j) (probabilistic_from_json j)
              r.probabilistic_sampling j0 (λ d u. probabilistic-back d)
              (Always-Anything r.probabilistic_sampling) (free p (unfold bytes_eq in refl))) in
      rw
        (
          at_type,
          response_from_json,
          ◌>>=◌,
          strategy_type-back r.strategy_type,
          found_p,
          found_l,
          found_o,
        )
        refl

  restriction-back :
      (r : Bytes × ℤ) → IsInt 32 r.1 → restriction_from_json j (restriction_to_json j r) ≡ some r
  unfolding restriction_from_json ◌>>=◌
  restriction-back (baggage_key, bound) i =
      let json = restriction_to_json j (baggage_key, bound) in
      let name : j.at_key json (codes "baggageKey") ≡ some (j.of_string baggage_key) =
        unfold restriction_to_json in
        (h.at_other (codes "maxValueLength") (codes "baggageKey") _ _ (unfold bytes_eq in refl)
          ∙ h.at_same _ _ _) in
      let most : j.at_key json (codes "maxValueLength") ≡ some (j.of_int bound) =
        unfold restriction_to_json in h.at_same _ _ _ in
      rw (name, restriction_from_json, ◌>>=◌, h.string_back baggage_key, most, h.int32_back bound i)
        refl

  -- A list of baggage restrictions that is written as JSON is read back, in its order, if its lengths fit
  -- 32 bits.
  pub restrictions_from_json-restrictions_to_json :
      (success : List (Bytes × ℤ))
      → All (λ (r : Bytes × ℤ). IsInt 32 r.1) success
      → restrictions_from_json j (restrictions_to_json j success) ≡ some success
  unfolding restrictions_from_json restrictions_to_json ◌>>=◌
  restrictions_from_json-restrictions_to_json success fit =
      rw (h.list_back (map (restriction_to_json j) success), restrictions_from_json, ◌>>=◌)
        (each-map _ (restriction_to_json j) (restriction_from_json j) success restriction-back fit)
