-- ===== src/Tracer/References.antt =====
-- What `analyzeReferences` finds.
use jaeger_client_cpp.Base.{
  ◌≡◌, true, false, Option, none, some, List, [], ◌∷◌, ◌++◌, if◌then◌else◌,
}
use jaeger_client_cpp.SpanContext.{SpanContext}
use jaeger_client_cpp.Tag.{Reference, child_of, follows_from, self_ref, invalid_ref}
use jaeger_client_cpp.Tracer.{OpenTracingRef, Analysis, is_useful, is_child_of, settle_parent}

-- The references that are kept: those to a useful context, but not to the span itself.
unfoldable pub kept_references : List OpenTracingRef → List Reference
kept_references [] = []
kept_references ((kind, none) ∷ refs) = kept_references refs
kept_references ((self_ref, some ctx) ∷ refs) = kept_references refs
kept_references ((child_of, some ctx) ∷ refs) =
    if is_useful ctx
    then record { ctx = ctx; kind = child_of } ∷ kept_references refs
    else kept_references refs
kept_references ((follows_from, some ctx) ∷ refs) =
    if is_useful ctx
    then record { ctx = ctx; kind = follows_from } ∷ kept_references refs
    else kept_references refs
kept_references ((invalid_ref, some ctx) ∷ refs) =
    if is_useful ctx
    then record { ctx = ctx; kind = invalid_ref } ∷ kept_references refs
    else kept_references refs

-- The last useful reference to the span itself, or this one.
unfoldable pub last_self : Option SpanContext → List OpenTracingRef → Option SpanContext
last_self found [] = found
last_self found ((kind, none) ∷ refs) = last_self found refs
last_self found ((self_ref, some ctx) ∷ refs) =
    if is_useful ctx then last_self (some ctx) refs else last_self found refs
last_self found ((child_of, some ctx) ∷ refs) = last_self found refs
last_self found ((follows_from, some ctx) ∷ refs) = last_self found refs
last_self found ((invalid_ref, some ctx) ∷ refs) = last_self found refs

-- The first parent by `ChildOfRef`; without one the last reference, if it is valid.
unfoldable pub parent_by : Option SpanContext → List Reference → Option SpanContext
parent_by last [] = settle_parent false last
parent_by last (r ∷ refs) = if is_child_of r.kind then some r.ctx else parent_by (some r.ctx) refs

-- A state of the loop agrees with what is still to come.
abbrev settled : Analysis → List Reference → Option SpanContext
settled a refs = if a.has_parent then settle_parent true a.parent else parent_by a.parent refs

-- The end of a loop that began at `a`, with these references to keep and this one to the span.
abbrev Found : Analysis → Analysis → List Reference → Option SpanContext → Type 0
Found b a kept self =
    (b.references ≡ a.references ++ kept)
    × (b.self ≡ self)
    × (settle_parent b.has_parent b.parent ≡ settled a kept)
