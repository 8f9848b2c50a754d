-- ===== src/Tag.antt =====
-- Tag.h and Tag.cpp, LogRecord.h and LogRecord.cpp, Reference.h and Reference.cpp.
use jaeger_client_cpp.Base.{
  ℕ, ◌/◌, Bool, true, false, Option, none, some, List, map, Bytes, ℤ, to_signed,
}
use jaeger_client_cpp.SpanContext.{SpanContext}

-- The alternatives of `opentracing::Value` that the visitors tell apart. A `double` is its 64 bits,
-- and `compound` stands for the lists and dictionaries.
pub data Value : Type 0 where
  flag : Bool → Value
  real : ℕ → Value
  int64 : ℤ → Value
  uint64 : ℕ → Value
  text : Bytes → Value
  null : Value
  chars : Bytes → Value
  compound : Value

pub record Tag : Type 0 where
  pub key : Bytes
  pub value : Value

-- `thrift::Tag`; `none` is a tag whose type was not set.
pub data ThriftValue : Type 0 where
  string_value : Bytes → ThriftValue
  double_value : ℕ → ThriftValue
  bool_value : Bool → ThriftValue
  long_value : ℤ → ThriftValue

-- `ThriftVisitor`
unfoldable pub thrift_value : Value → Option ThriftValue
thrift_value (flag b) = some (bool_value b)
thrift_value (real bits) = some (double_value bits)
thrift_value (int64 n) = some (long_value n)
thrift_value (uint64 n) = some (long_value (to_signed 64 n))
thrift_value (text s) = some (string_value s)
thrift_value null = none
thrift_value (chars s) = some (string_value s)
thrift_value compound = none

abbrev pub ThriftTag : Type 0
ThriftTag = Bytes × Option ThriftValue

-- `Tag::thrift`
unfoldable pub thrift_tag : Tag → ThriftTag
thrift_tag tag = (tag.key, thrift_value tag.value)

-- Points of time and durations are in nanoseconds.
pub record LogRecord : Type 0 where
  pub timestamp : ℕ
  pub fields : List Tag

-- `LogRecord::thrift`: microseconds, and the fields.
unfoldable pub thrift_log : LogRecord → ℕ × List ThriftTag
thrift_log log = (log.timestamp / 1000, map thrift_tag log.fields)

-- `opentracing::SpanReferenceType`, and the value 99 of `SelfRef`.
pub data ReferenceType : Type 0 where
  child_of follows_from self_ref invalid_ref : ReferenceType

pub record Reference : Type 0 where
  pub ctx : SpanContext
  pub kind : ReferenceType

pub record ThriftReference : Type 0 where
  pub is_child : Bool
  pub high : ℤ
  pub low : ℤ
  pub span_id : ℤ

-- `Reference::thrift`, which throws on another type.
unfoldable pub thrift_reference : Reference → Option ThriftReference
thrift_reference r =
    let made : Bool → ThriftReference = λ is_child. record {
      is_child = is_child;
      high = to_signed 64 r.ctx.trace_id.high;
      low = to_signed 64 r.ctx.trace_id.low;
      span_id = to_signed 64 r.ctx.span_id;
    } in
    elim r.kind [
      | child_of ↦ some (made true)
      | follows_from ↦ some (made false)
      | self_ref ↦ none
      | invalid_ref ↦ none
    ]
