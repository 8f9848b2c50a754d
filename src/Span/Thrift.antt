-- ===== src/Span/Thrift.antt =====
-- `Span::thrift` of Span.cpp: the span as it is sent to the agent.
use jaeger_client_cpp.Base.{ℕ, ◌/◌, Option, none, some, List, [], ◌∷◌, map, Bytes, ℤ, to_signed}
use jaeger_client_cpp.Tag.{
  Reference, ThriftTag, ThriftReference, thrift_tag, thrift_log, thrift_reference,
}
use jaeger_client_cpp.Span.{Span}

pub record ThriftSpan : Type 0 where
  pub trace_id_high : ℤ
  pub trace_id_low : ℤ
  pub span_id : ℤ
  pub parent_span_id : ℤ
  pub operation_name : Bytes
  pub references : List ThriftReference
  pub flags : ℕ
  pub start_time : ℕ
  pub duration : ℕ
  pub tags : List ThriftTag
  pub logs : List (ℕ × List ThriftTag)

-- The conversion of the references throws at the first invalid one.
unfoldable pub thrift_references : List Reference → Option (List ThriftReference)
thrift_references [] = some []
thrift_references (r ∷ refs) = elim (thrift_reference r) [
  | none ↦ none
  | some ref ↦ elim (thrift_references refs) [ none ↦ none | some rest ↦ some (ref ∷ rest) ]
]

-- Words become signed, and nanoseconds microseconds.
unfoldable pub thrift_span : Span → Option ThriftSpan
unfolding thrift_references
thrift_span s = elim (thrift_references s.references) [
  | none ↦ none
  | some refs ↦ some (record {
    trace_id_high = to_signed 64 s.ctx.trace_id.high;
    trace_id_low = to_signed 64 s.ctx.trace_id.low;
    span_id = to_signed 64 s.ctx.span_id;
    parent_span_id = to_signed 64 s.ctx.parent_id;
    operation_name = s.operation_name;
    references = refs;
    flags = s.ctx.flags;
    start_time = s.start_time_system / 1000;
    duration = s.duration / 1000;
    tags = map thrift_tag s.tags;
    logs = map thrift_log s.logs;
  })
]
