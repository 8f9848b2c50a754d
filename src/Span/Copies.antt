-- ===== src/Span/Copies.antt =====
-- Copies of a span: the copy constructor, `swap`, the assignment and the destructor of Span.h.
use jaeger_client_cpp.Base.{
  ℕ, ◌+◌, ◌-◌, max, ◌≡◌, refl, sym, ap, ◌∙◌, true, false, Option, none, some, [], ◌∷◌, ◌++◌, arith,
}
use jaeger_client_cpp.SpanContext.{is_sampled}
use jaeger_client_cpp.Span.{Handle, Span, World, FinishOptions, is_finished, report_span, finish}

unfoldable pub copy_span : Span → Span
copy_span s = record {
  tracer = s.tracer;
  ctx = s.ctx;
  operation_name = s.operation_name;
  start_time_system = s.start_time_system;
  start_time_steady = s.start_time_steady;
  duration = s.duration;
  tags = s.tags;
  logs = s.logs;
  references = s.references;
}

unfoldable pub swap_spans : Span → Span → Span × Span
swap_spans lhs rhs = (rhs, lhs)

-- The options of `Finish()`.
abbrev pub no_options : FinishOptions
no_options = record { finish_steady_timestamp = 0; log_records = [] }

-- The destructor, at a time of the steady clock.
unfoldable pub destroy : ℕ → Span → World → World
unfolding finish
destroy now s w = (finish no_options now s w).1

-- `operator=`: the right-hand side is passed by value, and destroyed behind the swap.
unfoldable pub assign : ℕ → Span → Span → World → Span × World
unfolding copy_span swap_spans destroy
assign now lhs rhs w =
    let (taken, old) = swap_spans lhs (copy_span rhs) in (taken, destroy now old w)

-- An assignment copies the span on the right and finishes the one on the left, which is reported as by a
-- call of `Finish`.
pub assign_lem :
    (now : ℕ) (lhs rhs : Span) (w : World)
    → assign now lhs rhs w ≡ (rhs, (finish no_options now lhs w).1)
unfolding assign
assign_lem now lhs rhs w = refl

ended : ℕ → Span → Span
ended now s = record s { duration = max 1 (now - s.start_time_steady); logs = s.logs ++ [] }

finish_open :
    (now : ℕ) (s : Span) (w : World) (handle : Handle)
    → is_finished s ≡ false
    → s.tracer ≡ some handle
    → finish no_options now s w ≡ (ended now s, report_span (ended now s) w)
unfolding finish ended
finish_open now s w handle f t = rw f (
    ap
      (λ (o : Option Handle).
        (ended now s, elim o [ none ↦ w | some found ↦ report_span (ended now s) w ]))
      t)

report_ended :
    (now : ℕ) (s : Span) (w : World)
    → is_sampled s.ctx ≡ true
    → ((report_span (ended now s) w).reported ≡ w.reported ++ ended now s ∷ [])
      × ((report_span (ended now s) w).metrics.spans_finished ≡ w.metrics.spans_finished + 1)
unfolding report_span ended
report_ended now s w sampled = rw sampled (refl, refl)

destroy_once :
    (now : ℕ) (s : Span) (w v : World) (handle : Handle)
    → is_finished s ≡ false
    → s.tracer ≡ some handle
    → is_sampled s.ctx ≡ true
    → ((destroy now s w).reported ≡ w.reported ++ (finish no_options now s v).0 ∷ [])
      × ((destroy now s w).metrics.spans_finished ≡ w.metrics.spans_finished + 1)
unfolding destroy
destroy_once now s w v handle f t sampled =
    let here = finish_open now s w handle f t in
    let there = finish_open now s v handle f t in
    let (reported, counted) = report_ended now s w sampled in
    (
      ap (λ (p : Span × World). p.1.reported) here
          ∙ reported
          ∙ ap (λ (p : Span × World). w.reported ++ p.0 ∷ []) (sym there),
      ap (λ (p : Span × World). p.1.metrics.spans_finished) here ∙ counted,
    )

-- A sampled span of a tracer that is not finished is reported once for itself and once for its copy.
pub destroy-copy_span :
    (now : ℕ) (s : Span) (w : World) (handle : Handle)
    → is_finished s ≡ false
    → s.tracer ≡ some handle
    → is_sampled s.ctx ≡ true
    → let finished = (finish no_options now s w).0 in
      ((destroy now (copy_span s) (destroy now s w)).reported
        ≡ (w.reported ++ finished ∷ []) ++ finished ∷ [])
      × ((destroy now (copy_span s) (destroy now s w)).metrics.spans_finished
          ≡ w.metrics.spans_finished + 2)
unfolding copy_span
destroy-copy_span now s w handle f t sampled =
    let (reported, counted) = destroy_once now s w w handle f t sampled in
    let (again, count) = destroy_once now s (destroy now s w) w handle f t sampled in
    (
      again ∙ ap (λ r. r ++ (finish no_options now s w).0 ∷ []) reported,
      omega (arith, counted, count),
    )
