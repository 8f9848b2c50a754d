-- ===== src/Samplers/Remote/Updates.antt =====
-- The strategy that is in force after updates and questions in any order, and what the metrics count.
use jaeger_client_cpp.Base.{
  ℕ, ◌+◌, ◌≡◌, refl, ap, ◌∙◌, Option, none, some, List, [], ◌∷◌, ◌++◌, Bytes, All, arith,
  Option-cases, inl, inr,
}
use jaeger_client_cpp.TraceId.{TraceId}
use jaeger_client_cpp.Metrics.{Metrics, null_metrics}
use jaeger_client_cpp.Samplers.{Arithmetic, Probabilistic, new_probabilistic, probabilistic_status}
use jaeger_client_cpp.Samplers.Remote.{
  probabilistic_sampler, StrategyResponse, Remote, any_status, remote_status, new_sampler,
  use_response, update_sampler,
}

module _ {D : Type 0} (a : Arithmetic D) where
  -- What happens to a sampler: an update with its time and response, or a question.
  pub data Event : Type 0 where
    update_event : ℕ → Option (StrategyResponse D) → Event
    question_event : ℕ → TraceId → Bytes → Event

  unfoldable pub event : Event → Remote D × Metrics → Remote D × Metrics
  unfolding update_sampler remote_status
  event (update_event now response) (r, m) = update_sampler a now response r m
  event (question_event now id operation) (r, m) = ((remote_status a now id operation r).1, m)

  unfoldable pub events : List Event → Remote D × Metrics → Remote D × Metrics
  unfolding event
  events [] s = s
  events (e ∷ es) s = events es (event e s)

  -- A question, or an update without a response or with one that names no strategy.
  abbrev pub NamesNone : Option (StrategyResponse D) → Type 0
  NamesNone none = Unit {0}
  NamesNone (some response) =
      (response.operation_sampling ≡ none)
      × ((response.probabilistic_sampling ≡ none) × (response.rate_limiting_sampling ≡ none))

  abbrev pub IsIdle : Event → Type 0
  IsIdle (update_event now response) = NamesNone response
  IsIdle (question_event now id operation) = Unit {0}

  update_sampler-NamesNone :
      (now : ℕ) (response : Option (StrategyResponse D)) (r : Remote D) (m : Metrics)
      → NamesNone response
      → (update_sampler a now response r m).0 ≡ r
  unfolding update_sampler use_response new_sampler
  update_sampler-NamesNone now none r m h = refl
  update_sampler-NamesNone now (some response) r m (o, (p, l)) =
      rw (o, p, l, update_sampler, use_response, new_sampler) refl

  event-probabilistic :
      (e : Event) (p : Probabilistic D) (s : Remote D × Metrics)
      → IsIdle e
      → s.0.sampler ≡ probabilistic_sampler p
      → (event e s).0.sampler ≡ probabilistic_sampler p
  unfolding event remote_status any_status
  event-probabilistic (update_event now response) p (r, m) i h =
      ap (λ (t : Remote D). t.sampler) (update_sampler-NamesNone now response r m i) ∙ h
  event-probabilistic (question_event now id operation) p (r, m) i h = rw (h, any_status) refl

  events-probabilistic :
      (es : List Event) (p : Probabilistic D) (s : Remote D × Metrics)
      → All IsIdle es
      → s.0.sampler ≡ probabilistic_sampler p
      → (events es s).0.sampler ≡ probabilistic_sampler p
  unfolding events
  events-probabilistic [] p s i h = h
  events-probabilistic (e ∷ es) p s (i, is) h =
      events-probabilistic es p (event e s) is (event-probabilistic e p s i h)

  events-append :
      (es fs : List Event) (s : Remote D × Metrics) → events (es ++ fs) s ≡ events fs (events es s)
  unfolding events
  events-append [] fs s = refl
  events-append (e ∷ es) fs s = events-append es fs (event e s)

  update_sampler-rate :
      (now : ℕ) (response : StrategyResponse D) (rate : D) (r : Remote D) (m : Metrics)
      → response.operation_sampling ≡ none
      → response.probabilistic_sampling ≡ some rate
      → (update_sampler a now (some response) r m).0.sampler
        ≡ probabilistic_sampler (new_probabilistic a rate)
  unfolding update_sampler use_response new_sampler
  update_sampler-rate now response rate r m o p =
      rw (o, p, update_sampler, use_response, new_sampler) refl

  -- After a response with a probabilistic strategy and none per operation, whatever happened before, the
  -- remotely controlled sampler answers every question as a probabilistic sampler of that rate does,
  -- until a later response names a strategy: failed requests, empty responses and other questions
  -- change nothing.
  pub remote_status-events :
      (before after : List Event) (now later : ℕ) (response : StrategyResponse D) (rate : D)
      (r : Remote D) (m : Metrics) (id : TraceId) (operation : Bytes)
      → response.operation_sampling ≡ none
      → response.probabilistic_sampling ≡ some rate
      → All IsIdle after
      → let s = events (before ++ update_event now (some response) ∷ after) (r, m) in
        (remote_status a later id operation s.0).0
        ≡ probabilistic_status a id (new_probabilistic a rate)
  unfolding remote_status any_status events event
  remote_status-events before after now later response rate r m id operation o p idle =
      let s = events before (r, m) in
      let set = update_sampler-rate now response rate s.0 s.1 o p in
      let kept =
        events-probabilistic after (new_probabilistic a rate)
          (event (update_event now (some response)) s) idle set in
      rw (events-append before (update_event now (some response) ∷ after) (r, m), kept, any_status)
        refl

  abbrev pub polls : List Event → ℕ
  polls [] = 0
  polls (update_event now response ∷ es) = polls es + 1
  polls (question_event now id operation ∷ es) = polls es

  -- The metrics of so many requests.
  pub record IsCounted (n : ℕ) (m : Metrics) : Type 0 where
    pub answered : m.sampler_retrieved + m.sampler_query_failure ≡ n
    pub settled : m.sampler_retrieved ≡ m.sampler_updated + m.sampler_update_failure

  pub update_sampler-IsCounted :
      (n now : ℕ) (response : Option (StrategyResponse D)) (r : Remote D) (m : Metrics)
      → IsCounted n m
      → IsCounted (n + 1) (update_sampler a now response r m).1
  unfolding update_sampler
  update_sampler-IsCounted n now none r m h = record {
    answered = omega (arith, h.answered);
    settled = h.settled;
  }
  update_sampler-IsCounted n now (some response) r m h =
      elim (Option-cases (use_response a now response r.max_operations r.sampler)) [
        | inl e ↦
            rw (e, update_sampler)
              (record { answered = omega (arith, h.answered); settled = omega (arith, h.settled) })
        | inr (sampler, e) ↦
            rw (e, update_sampler)
              (record { answered = omega (arith, h.answered); settled = omega (arith, h.settled) })
      ]

  renumber : (m n : ℕ) (x : Metrics) → m ≡ n → IsCounted m x → IsCounted n x
  renumber m n x e h = record { answered = h.answered ∙ e; settled = h.settled }

  IsCounted-events :
      (es : List Event) (n : ℕ) (s : Remote D × Metrics)
      → IsCounted n s.1
      → IsCounted (n + polls es) (events es s).1
  unfolding events event
  IsCounted-events [] n s h = renumber n (n + 0) s.1 (omega arith) h
  IsCounted-events (update_event now response ∷ es) n s h =
      renumber (n + 1 + polls es) (n + (polls es + 1)) _ (omega arith)
        (IsCounted-events es (n + 1) _ (update_sampler-IsCounted n now response s.0 s.1 h))
  IsCounted-events (question_event now id operation ∷ es) n s h = IsCounted-events es n _ h

  -- From zero metrics and after updates and questions in any order, each request was counted once, as
  -- retrieved or as a failed query, and each retrieved response once, as updated or as a failed update.
  pub events-IsCounted :
      (es : List Event) (r : Remote D) → IsCounted (polls es) (events es (r, null_metrics)).1
  events-IsCounted es r = renumber (0 + polls es) (polls es) _ (omega arith) (
      IsCounted-events es 0 (r, null_metrics)
        (record { answered = omega arith; settled = omega arith }))
