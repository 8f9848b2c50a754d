-- ===== src/Baggage.antt =====
-- baggage/BaggageSetter.h, baggage/Restriction.h and baggage/RestrictionManager.h.
mod Tests
pub mod Setter
pub mod Remote
pub mod Updates
pub mod Polling
use jaeger_client_cpp.Base.{
  ℕ, zero, suc, ◌+◌, Bool, true, false, not, ◌&&◌, Option, none, some, List, [], ◌∷◌, ◌++◌, Bytes,
  codes, ◌==◌, if◌then◌else◌, is_empty, length, take, lookup, insert, ℤ, pos, negsuc, to_signed,
  to_unsigned, gtb,
}
use jaeger_client_cpp.SpanContext.{StrMap}
use jaeger_client_cpp.Tag.{Tag, text, chars}
use jaeger_client_cpp.Metrics.{Metrics}

pub record Restriction : Type 0 where
  pub key_allowed : Bool
  pub max_value_length : ℤ

-- The virtual function `getRestriction`, from a service and a key.
abbrev pub RestrictionManager : Type 0
RestrictionManager = Bytes → Bytes → Restriction

abbrev pub default_max_value_length : ℕ
default_max_value_length = 2048

-- `DefaultRestrictionManager`
unfoldable pub default_manager : ℤ → RestrictionManager
default_manager (pos zero) service key = record {
  key_allowed = true;
  max_value_length = pos default_max_value_length;
}
default_manager (pos (suc n)) service key = record {
  key_allowed = true;
  max_value_length = pos (suc n);
}
default_manager (negsuc n) service key = record { key_allowed = true; max_value_length = negsuc n }

-- `logFields`: what is logged, if the span is sampled.
unfoldable pub log_fields : Bool → Bytes → Bytes → Bytes → Bool → Bool → Option (List Tag)
log_fields sampled key value prev_item truncated valid =
    if not sampled
    then none
    else some (
        record { key = codes "event"; value = chars (codes "baggage") }
        ∷ record { key = codes "key"; value = text key }
        ∷ record { key = codes "value"; value = text value }
        ∷ ((if is_empty prev_item
              then []
              else record { key = codes "override"; value = chars (codes "true") } ∷ [])
            ++ ((if truncated
                  then record { key = codes "truncated"; value = chars (codes "true") } ∷ []
                  else [])
                ++ (if valid
                    then []
                    else record { key = codes "invalid"; value = chars (codes "true") } ∷ []))))

-- The baggage, the fields that were logged, and the metrics afterwards.
pub record Update : Type 0 where
  pub baggage : StrMap
  pub logged : Option (List Tag)
  pub metrics : Metrics

-- `static_cast<int>(value.size()) > restriction.maxValueLength()`
unfoldable pub is_too_long : Bytes → ℤ → Bool
is_too_long value bound = gtb (to_signed 32 (length value)) bound

abbrev pub or_blank : Option Bytes → Bytes
or_blank none = []
or_blank (some s) = s

-- `setBaggage`, of a span with this service name and sampling decision.
unfoldable pub set_baggage :
    RestrictionManager → Bytes → Bool → StrMap → Bytes → Bytes → Metrics → Update
unfolding is_too_long log_fields
set_baggage get_restriction service sampled baggage key value m =
    let restriction = get_restriction service key in
    if not restriction.key_allowed
    then record {
      baggage = baggage;
      logged = log_fields sampled key value [] false false;
      metrics = record m { baggage_update_failure = m.baggage_update_failure + 1 };
    }
    else let truncated = is_too_long value restriction.max_value_length in
      let kept =
        if truncated then take (to_unsigned 64 restriction.max_value_length) value else value in
      record {
        baggage = insert key kept baggage;
        logged = log_fields sampled key kept (or_blank (lookup key baggage)) truncated true;
        metrics = record m {
          baggage_truncate = if truncated then m.baggage_truncate + 1 else m.baggage_truncate;
          baggage_update_success = m.baggage_update_success + 1;
        };
      }
