-- ===== src/Samplers/Tests.antt =====
-- Runs of the theorems on samplers, with whole numbers for the doubles.
use jaeger_client_cpp.Base.{
  ℕ, ◌+◌, ◌-◌, ◌*◌, ◌≤◌, max, ◌≡◌, refl, false, List, [], ◌∷◌, Bytes, codes, bytes_eq, ltb, leb,
  ◌==◌, length, arith, pos, negsuc, none, some, true, ◌++◌,
}
use jaeger_client_cpp.TraceId.{TraceId}
use jaeger_client_cpp.Samplers.{
  Arithmetic, Adaptive, Strategies, new_limiter, new_adaptive, new_probabilistic,
  probabilistic_status,
}
use jaeger_client_cpp.Samplers.Limits.{IsOrdered, IsFunded, IsSteady, checks, checks-IsFunded}
use jaeger_client_cpp.Samplers.Operations.{questions, length-questions}
use jaeger_client_cpp.Metrics.{null_metrics}
use jaeger_client_cpp.Samplers.Remote.{
  const_sampler, StrategyResponse, empty_response, Remote, new_remote, remote_status,
  poll_controller,
}
use jaeger_client_cpp.Samplers.Remote.Updates.{
  Event, update_event, question_event, events, remote_status-events,
}
use jaeger_client_cpp.Samplers.Remote.Polling.{Round, requests, poll_controller-ends}

abbrev whole : Arithmetic ℕ
whole = record {
  zero_value = 0;
  one_value = 1;
  add = λ x y. x + y;
  sub = λ x y. x - y;
  mul = λ x y. x * y;
  lt = ltb;
  le = leb;
  eq = λ x y. x == y;
  of_int = λ z. elim z [ pos n ↦ n | negsuc n ↦ 0 ];
  seconds = λ z. elim z [ pos n ↦ n | negsuc n ↦ 0 ];
  scaled = λ x. (x, false);
  bits = λ x. x;
}

abbrev Anything : ℕ → Type 0
Anything n = Unit {0}

whole-IsOrdered : IsOrdered whole Anything
whole-IsOrdered = record {
  le_self = λ x y p. (ground arith, ground arith);
  le_trans = λ x y z p q. ground arith;
  not_lt = λ x y p q e. ground (arith, e);
  finite_between = λ x y p q f. tt;
  add_nonneg = λ x y p q. ground arith;
  mul_nonneg = λ x y f g p q. ground arith;
  sub_nonneg = λ x y f p q. ground arith;
  sub_le = λ x y f p q. ground arith;
  seconds_finite = λ n small. tt;
  seconds_nonneg = λ n small. ground arith;
}

times-IsSteady : IsSteady whole Anything 0 (3 ∷ 3 ∷ 9 ∷ [])
times-IsSteady =
    (omega arith, omega arith, (omega arith, omega arith, (omega arith, omega arith, tt)))

checks-IsFunded_example :
    IsFunded whole Anything (checks whole Anything 1 (3 ∷ 3 ∷ 9 ∷ []) (new_limiter whole 2 5 0))
checks-IsFunded_example =
    checks-IsFunded whole Anything whole-IsOrdered 1 2 5 0 (3 ∷ 3 ∷ 9 ∷ []) tt tt refl refl refl
      times-IsSteady

abbrev strategies : Strategies ℕ
strategies = record {
  default_sampling_probability = 0;
  default_lower_bound = 1;
  default_upper_bound = none;
  per_operation = (codes "get", 1) ∷ [];
}

abbrev some_id : TraceId
some_id = record { high = 0; low = 12 }

abbrev adaptive : Adaptive ℕ
adaptive = new_adaptive whole strategies 2 0

abbrev asked : List (ℕ × TraceId × Bytes)
asked = (1, some_id, codes "put") ∷ (2, some_id, codes "get") ∷ (3, some_id, codes "post") ∷ []

length-questions_example :
    length (questions whole asked adaptive).samplers
    ≤ max adaptive.max_operations (length adaptive.samplers)
length-questions_example = length-questions whole asked adaptive

other_operation : bytes_eq (codes "put") (codes "get") ≡ false
unfolding bytes_eq
other_operation = refl

-- A probabilistic strategy between failed requests and a question.
abbrev half : StrategyResponse ℕ
half = record empty_response { probabilistic_sampling = some 1 }

abbrev first_remote : Remote ℕ
first_remote = new_remote (const_sampler true) (pos 2000)

abbrev failed_requests : List (Event whole)
failed_requests = update_event 1 none ∷ update_event 2 (some empty_response) ∷ []

abbrev later_events : List (Event whole)
later_events =
    question_event 5 some_id (codes "get")
    ∷ update_event 6 none
    ∷ update_event 7 (some empty_response)
    ∷ []

remote_status-events_example :
    (remote_status whole 9 some_id
      (codes "put")
      (events whole
        (failed_requests ++ update_event 4 (some half) ∷ later_events)
        (first_remote, null_metrics)).0).0
    ≡ probabilistic_status whole some_id (new_probabilistic whole 1)
remote_status-events_example =
    remote_status-events whole failed_requests later_events 4 9 half 1 first_remote null_metrics
      some_id (codes "put") refl refl (tt, (tt, ((refl, (refl, refl)), tt)))

abbrev failed_round : Round whole
failed_round = (1, none, false)

poll_controller-ends_example :
    let t =
      poll_controller whole
        (failed_round ∷ [] ++ (2, some half, true) ∷ (3, none, false) ∷ [])
        first_remote
        null_metrics in
    (t.0.running ≡ false)
    × (requests whole t.1 ≤ requests whole null_metrics + length (failed_round ∷ []) + 1)
poll_controller-ends_example =
    poll_controller-ends whole (failed_round ∷ []) ((3, none, false) ∷ []) 2 (some half)
      first_remote null_metrics
