-- ===== src/Span/Sampling.antt =====
-- The sampling priority of a span, and what an unsampled span records.
use jaeger_client_cpp.Base.{
  ℕ, ◌/◌, ◌<◌, ◌≡◌, ◌≢◌, refl, true, false, false≢true, List, arith, Bytes, bytes_eq, bytes_eq_iff,
  codes, Bool-cases, inl, inr,
}
use jaeger_client_cpp.SpanContext.{is_sampled, is_debug}
use jaeger_client_cpp.SpanContext.Flags.{bit_or-both, bit_and-unsampled}
use jaeger_client_cpp.Tag.{Value, Tag}
use jaeger_client_cpp.Span.{Span, priority_flags, set_sampling_priority, set_tag, do_log}
use jaeger_client_cpp.Span.Priority.{priority_of}

-- The tag `sampling.priority` decides the sampling, even of a finished span: a positive priority
-- samples and debugs, any other stops the sampling. The flags above the debug bit stay, and the IDs,
-- the baggage, the tags and the logs too.
pub set_tag-priority :
    (value : Value) (s : Span)
    → s.ctx.flags < 256
    → let s' = set_tag (codes "sampling.priority") value s in
      (is_sampled s'.ctx ≡ priority_of value)
      × (priority_of value ≡ true → is_debug s'.ctx ≡ true)
      × (s'.ctx.flags / 4 ≡ s.ctx.flags / 4)
      × (s'.ctx.trace_id ≡ s.ctx.trace_id)
      × (s'.ctx.span_id ≡ s.ctx.span_id)
      × (s'.ctx.baggage ≡ s.ctx.baggage)
      × (s'.tags ≡ s.tags)
      × (s'.logs ≡ s.logs)
unfolding set_tag bytes_eq set_sampling_priority priority_flags is_sampled is_debug
set_tag-priority value s h = elim (Bool-cases (priority_of value)) [
  | inl e ↦
      let bits = bit_or-both s.ctx.flags h in
      rw (e, set_tag, set_sampling_priority, priority_flags, is_sampled, is_debug)
        (bits.0, λ _. bits.1, bits.2, refl, refl, refl, refl, refl)
  | inr e ↦
      let bits = bit_and-unsampled s.ctx.flags h in
      rw (e, set_tag, set_sampling_priority, priority_flags, is_sampled, is_debug)
        (bits.0, λ f. absurd (false≢true f), omega (arith, bits.1), refl, refl, refl, refl, refl)
]

-- On a span that is not sampled, setting a tag other than the sampling priority and logging change
-- nothing.
pub unsampled_records_nothing :
    (key : Bytes) (value : Value) (timestamp : ℕ) (fields : List Tag) (s : Span)
    → is_sampled s.ctx ≡ false
    → key ≢ codes "sampling.priority"
    → (set_tag key value s ≡ s) × (do_log timestamp fields s ≡ s)
unfolding set_tag do_log
unsampled_records_nothing key value timestamp fields s u k =
    elim (Bool-cases (bytes_eq key (codes "sampling.priority"))) [
      | inl e ↦ absurd (k ((bytes_eq_iff key (codes "sampling.priority")).0 e))
      | inr e ↦ (rw (e, u, set_tag) (ground arith), rw (u, do_log) refl)
    ]
