-- ===== src/Span/Calls.antt =====
-- What one call keeps of a span.
use jaeger_client_cpp.Base.{
  ℕ, ◌+◌, ◌≡◌, refl, sym, ap, Bool, true, false, false≢true, some, List, [], ◌∷◌, arith, Bytes,
  Bool-cases, inl, inr,
}
use jaeger_client_cpp.SpanContext.{SpanContext, is_sampled, with_baggage}
use jaeger_client_cpp.Tag.{Value, Tag}
use jaeger_client_cpp.Metrics.{Metrics}
use jaeger_client_cpp.Baggage.{Update, set_baggage}
use jaeger_client_cpp.Span.{
  Handle, Span, World, FinishOptions, is_finished, report_span, finish, set_operation_name,
  set_sampling_priority, set_tag, apply_update, set_baggage_item, log_fields_no_locking, do_log, Op,
  finish_op, name_op, tag_op, baggage_op, log_op, perform,
}

-- Whether `Finish` is among the calls.
abbrev pub has_finish : List Op → Bool
has_finish [] = false
has_finish (finish_op options now ∷ ops) = true
has_finish (name_op name ∷ ops) = has_finish ops
has_finish (tag_op key value ∷ ops) = has_finish ops
has_finish (baggage_op key value now ∷ ops) = has_finish ops
has_finish (log_op timestamp fields ∷ ops) = has_finish ops

-- What a call keeps of a span, and how often it counts the span as finished.
pub record Kept (s : Span) (w : World) (times : ℕ) (r : Span × World) : Type 0 where
  pub same_tracer : r.0.tracer ≡ s.tracer
  pub same_duration : r.0.duration ≡ s.duration
  pub same_name : is_finished s ≡ true → r.0.operation_name ≡ s.operation_name
  pub same_tags : is_finished s ≡ true → r.0.tags ≡ s.tags
  pub counted : r.1.metrics.spans_finished ≡ w.metrics.spans_finished + times

pub name-Kept : (name : Bytes) (s : Span) (w : World) → Kept s w 0 (set_operation_name name s, w)
unfolding set_operation_name
name-Kept name s w = record {
  same_tracer = ground arith;
  same_duration = ground arith;
  same_name = λ e. ground arith;
  same_tags = λ e. ground arith;
  counted = omega arith;
}

pub tag-Kept :
    (key : Bytes) (value : Value) (s : Span) (w : World) → Kept s w 0 (set_tag key value s, w)
unfolding set_tag set_sampling_priority
tag-Kept key value s w = record {
  same_tracer = ground arith;
  same_duration = ground arith;
  same_name = λ e. ground arith;
  same_tags = λ e. ground arith;
  counted = omega arith;
}

pub log-Kept :
    (timestamp : ℕ) (fields : List Tag) (s : Span) (w : World)
    → Kept s w 0 (do_log timestamp fields s, w)
unfolding do_log
log-Kept timestamp fields s w = record {
  same_tracer = ground arith;
  same_duration = ground arith;
  same_name = λ e. ground arith;
  same_tags = λ e. ground arith;
  counted = omega arith;
}

set_baggage-spans_finished :
    (handle : Handle) (sampled : Bool) (ctx : SpanContext) (key value : Bytes) (m : Metrics)
    → (set_baggage handle.get_restriction handle.service_name sampled ctx.baggage key value
        m).metrics.spans_finished
      ≡ m.spans_finished
unfolding set_baggage
set_baggage-spans_finished handle sampled ctx key value m =
    elim (Bool-cases (handle.get_restriction handle.service_name key).key_allowed) [
      | inl e ↦ rw (e, set_baggage) refl
      | inr e ↦ rw (e, set_baggage) refl
    ]

-- A call that is carried out and keeps what `Kept` says.
abbrev pub Keeps : Op → Span → World → Type 0
Keeps op s w = (r : Span × World) × (perform op s w ≡ some r) × Kept s w 0 r

apply_update-Kept :
    (update : Update) (now : ℕ) (s : Span) (w : World)
    → update.metrics.spans_finished ≡ w.metrics.spans_finished
    → Kept s w 0 (apply_update update now s w)
unfolding apply_update log_fields_no_locking with_baggage
apply_update-Kept update now s w e = record {
  same_tracer = ground arith;
  same_duration = ground arith;
  same_name = λ f. ground arith;
  same_tags = λ f. ground arith;
  counted = omega (arith, e);
}

pub baggage-Keeps :
    (key value : Bytes) (now : ℕ) (s : Span) (w : World) (handle : Handle)
    → s.tracer ≡ some handle
    → Keeps (baggage_op key value now) s w
unfolding perform set_baggage_item
baggage-Keeps key value now s w handle e =
    let update : Update =
      set_baggage handle.get_restriction handle.service_name (is_sampled s.ctx) s.ctx.baggage key
        value w.metrics in
    (
      apply_update update now s w,
      rw (e, set_baggage_item) refl,
      apply_update-Kept update now s w
          (set_baggage-spans_finished handle (is_sampled s.ctx) s.ctx key value w.metrics),
    )

pub finish-again :
    (options : FinishOptions) (now : ℕ) (s : Span) (w : World)
    → is_finished s ≡ true
    → finish options now s w ≡ (s, w)
unfolding finish
finish-again options now s w e = rw (e, finish) refl

pub finish-first :
    (options : FinishOptions) (now : ℕ) (s : Span) (w : World) (handle : Handle)
    → s.tracer ≡ some handle
    → is_finished s ≡ false
    → ((finish options now s w).0.tracer ≡ some handle)
      × (is_finished (finish options now s w).0 ≡ true)
      × ((finish options now s w).1.metrics.spans_finished ≡ w.metrics.spans_finished + 1)
unfolding finish report_span is_finished
finish-first options now s w handle t e = (ground arith, ground arith, ground arith)

-- Every call but the first `Finish` keeps the span as `Kept` says.
pub later-Keeps :
    (op : Op) (s : Span) (w : World) (handle : Handle)
    → s.tracer ≡ some handle
    → is_finished s ≡ true
    → Keeps op s w
unfolding perform
later-Keeps (finish_op options now) s w handle t e = (
  (s, w),
  ap some (finish-again options now s w e),
  record {
    same_tracer = refl;
    same_duration = refl;
    same_name = λ f. refl;
    same_tags = λ f. refl;
    counted = omega arith;
  },
)
later-Keeps (name_op name) s w handle t e = (_, refl, name-Kept name s w)
later-Keeps (tag_op key value) s w handle t e = (_, refl, tag-Kept key value s w)
later-Keeps (baggage_op key value now) s w handle t e = baggage-Keeps key value now s w handle t
later-Keeps (log_op timestamp fields) s w handle t e = (_, refl, log-Kept timestamp fields s w)

-- What is not a finish call keeps an unfinished span unfinished.
pub other-Keeps :
    (op : Op) (s : Span) (w : World) (handle : Handle)
    → s.tracer ≡ some handle
    → has_finish (op ∷ []) ≡ false
    → Keeps op s w
unfolding perform
other-Keeps (finish_op options now) s w handle t e = absurd (false≢true (sym e))
other-Keeps (name_op name) s w handle t e = (_, refl, name-Kept name s w)
other-Keeps (tag_op key value) s w handle t e = (_, refl, tag-Kept key value s w)
other-Keeps (baggage_op key value now) s w handle t e = baggage-Keeps key value now s w handle t
other-Keeps (log_op timestamp fields) s w handle t e = (_, refl, log-Kept timestamp fields s w)
