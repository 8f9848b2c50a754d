-- ===== src/Span/Tests.antt =====
-- Runs of the theorems on spans.
use jaeger_client_cpp.Base.{
  ◌+◌, ◌<◌, ◌≡◌, ◌≢◌, refl, ap, true, false, some, List, [], ◌∷◌, arith, codes, if◌then◌else◌, pos,
  length,
}
use jaeger_client_cpp.SpanContext.{is_sampled}
use jaeger_client_cpp.SpanContext.Samples.{sampled_ctx}
use jaeger_client_cpp.Metrics.{null_metrics}
use jaeger_client_cpp.Baggage.{default_manager}
use jaeger_client_cpp.Span.{
  Handle, Span, World, FinishOptions, is_finished, Op, finish_op, name_op, baggage_op, run,
}
use jaeger_client_cpp.Span.Calls.{has_finish}
use jaeger_client_cpp.Span.Lifecycle.{run-finished, run-unfinished}

abbrev shop : Handle
shop = record { service_name = codes "shop"; get_restriction = default_manager (pos 0) }

abbrev open_span : Span
open_span = record {
  tracer = some shop;
  ctx = sampled_ctx;
  operation_name = codes "get";
  start_time_system = 5;
  start_time_steady = 7;
  duration = 0;
  tags = [];
  logs = [];
  references = [];
}

abbrev idle : World
idle = record { metrics = null_metrics; reported = [] }

abbrev no_options : FinishOptions
no_options = record { finish_steady_timestamp = 0; log_records = [] }

abbrev calls : List Op
calls =
    name_op (codes "put")
    ∷ baggage_op (codes "user") (codes "c") 8
    ∷ finish_op no_options 9
    ∷ finish_op no_options 12
    ∷ []

is_open : is_finished open_span ≡ false
unfolding is_finished
is_open = refl

run-unfinished_example :
    (r : Span × World) × (run calls open_span idle ≡ some r)
    × (is_finished r.0 ≡ has_finish calls)
    × (r.1.metrics.spans_finished ≡ 0 + (if has_finish calls then 1 else 0))
run-unfinished_example = run-unfinished calls open_span idle shop refl is_open

abbrev done_span : Span
done_span = record open_span { duration = 2 }

is_done : is_finished done_span ≡ true
unfolding is_finished
is_done = refl

run-finished_example :
    (r : Span × World) × (run calls done_span idle ≡ some r)
    × (r.0.duration ≡ 2)
    × (r.0.operation_name ≡ codes "get")
    × (r.0.tags ≡ [])
    × (r.1.metrics.spans_finished ≡ 0)
run-finished_example = run-finished calls done_span idle shop refl is_done

flags_small : 1 < 256
flags_small = omega arith

abbrev quiet_span : Span
quiet_span = record open_span { ctx = record sampled_ctx { flags = 0 } }

is_quiet : is_sampled quiet_span.ctx ≡ false
unfolding is_sampled
is_quiet = refl

other_key : codes "http" ≢ codes "sampling.priority"
other_key e = ground (arith, ap length e)
