-- ===== src/Span/Lifecycle.antt =====
-- A span over any sequence of calls.
use jaeger_client_cpp.Base.{
  ◌+◌, ◌≡◌, refl, sym, ap, ◌∙◌, true, false, not, some, List, [], ◌∷◌, arith, ◌==◌, if◌then◌else◌,
}
use jaeger_client_cpp.Span.{
  Handle, Span, World, is_finished, finish, Op, finish_op, name_op, tag_op, baggage_op, log_op,
  perform, run,
}
use jaeger_client_cpp.Span.Calls.{has_finish, finish-first, later-Keeps, other-Keeps}

still_finished :
    (s s' : Span) → s'.duration ≡ s.duration → is_finished s ≡ true → is_finished s' ≡ true
unfolding is_finished
still_finished s s' d e = ap (λ n. not (n == 0)) d ∙ e

still_open :
    (s s' : Span) → s'.duration ≡ s.duration → is_finished s ≡ false → is_finished s' ≡ false
unfolding is_finished
still_open s s' d e = ap (λ n. not (n == 0)) d ∙ e

-- From a finished span, with a tracer, any sequence of calls is carried out. Its name, tags and
-- duration stay, and it is not counted as finished again.
pub run-finished :
    (ops : List Op) (s : Span) (w : World) (handle : Handle)
    → s.tracer ≡ some handle
    → is_finished s ≡ true
    → (r : Span × World) × (run ops s w ≡ some r)
      × (r.0.duration ≡ s.duration)
      × (r.0.operation_name ≡ s.operation_name)
      × (r.0.tags ≡ s.tags)
      × (r.1.metrics.spans_finished ≡ w.metrics.spans_finished)
unfolding run
run-finished [] s w handle t e = ((s, w), refl, refl, refl, refl, refl)
run-finished (op ∷ ops) s w handle t e =
    let (r, done, kept) = later-Keeps op s w handle t e in
    let (r', more, d, n, g, c) =
      run-finished ops r.0 r.1 handle (kept.same_tracer ∙ t)
        (still_finished s r.0 kept.same_duration e) in
    (
      r',
      rw (done, run) more,
      d ∙ kept.same_duration,
      n ∙ kept.same_name e,
      g ∙ kept.same_tags e,
      omega (arith, c, kept.counted),
    )

-- What a sequence of calls does to a span that is not finished.
abbrev Counts : List Op → Span → World → Type 0
Counts ops s w =
    (r : Span × World) × (run ops s w ≡ some r)
    × (is_finished r.0 ≡ has_finish ops)
    × (r.1.metrics.spans_finished ≡ w.metrics.spans_finished + (if has_finish ops then 1 else 0))

skip-Counts :
    (op : Op) (ops : List Op) (s : Span) (w : World) (handle : Handle)
    → s.tracer ≡ some handle
    → is_finished s ≡ false
    → has_finish (op ∷ []) ≡ false
    → has_finish (op ∷ ops) ≡ has_finish ops
    → ((s' : Span) (w' : World)
        → s'.tracer ≡ some handle
        → is_finished s' ≡ false
        → Counts ops s' w')
    → Counts (op ∷ ops) s w
unfolding run
skip-Counts op ops s w handle t e other same next =
    let (r, done, kept) = other-Keeps op s w handle t other in
    let (r', more, f, c) =
      next r.0 r.1 (kept.same_tracer ∙ t) (still_open s r.0 kept.same_duration e) in
    (r', rw (done, run) more, f ∙ sym same, rw same (omega (arith, c, kept.counted)))

-- With a tracer, any sequence of calls on a span that is not finished is carried out. The span is
-- finished afterwards if and only if `Finish` was called, and it is then counted once, however often
-- that was.
pub run-unfinished :
    (ops : List Op) (s : Span) (w : World) (handle : Handle)
    → s.tracer ≡ some handle
    → is_finished s ≡ false
    → (r : Span × World) × (run ops s w ≡ some r)
      × (is_finished r.0 ≡ has_finish ops)
      × (r.1.metrics.spans_finished ≡ w.metrics.spans_finished + (if has_finish ops then 1 else 0))
unfolding run perform
run-unfinished [] s w handle t e = ((s, w), refl, e, omega arith)
run-unfinished (finish_op options now ∷ ops) s w handle t e =
    let (tracer, finished, once) = finish-first options now s w handle t e in
    let (r', more, d, n, g, c) =
      run-finished ops (finish options now s w).0 (finish options now s w).1 handle tracer
        finished in
    (r', more, still_finished _ r'.0 d finished, omega (arith, c, once))
run-unfinished (name_op name ∷ ops) s w handle t e =
    skip-Counts (name_op name) ops s w handle t e refl refl
      (λ s' w' t' e'. run-unfinished ops s' w' handle t' e')
run-unfinished (tag_op key value ∷ ops) s w handle t e =
    skip-Counts (tag_op key value) ops s w handle t e refl refl
      (λ s' w' t' e'. run-unfinished ops s' w' handle t' e')
run-unfinished (baggage_op key value now ∷ ops) s w handle t e =
    skip-Counts (baggage_op key value now) ops s w handle t e refl refl
      (λ s' w' t' e'. run-unfinished ops s' w' handle t' e')
run-unfinished (log_op timestamp fields ∷ ops) s w handle t e =
    skip-Counts (log_op timestamp fields) ops s w handle t e refl refl
      (λ s' w' t' e'. run-unfinished ops s' w' handle t' e')
