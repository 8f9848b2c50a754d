-- ===== src/Reporter/Draining.antt =====
-- The sweep of the queue into a transport that takes every batch.
use jaeger_client_cpp.Base.{
  ℕ, zero, suc, ◌+◌, ◌≤◌, ◌≡◌, refl, sym, ap, ◌∙◌, subst, true, List, [], ◌∷◌, ◌++◌, append_assoc,
  arith, length, length-append, replicate, All, ℤ,
}
use jaeger_client_cpp.Metrics.{Metrics}
use jaeger_client_cpp.Sender.{Outcome, returned, failed, Sender}
use jaeger_client_cpp.Sender.Process.{IsSound, IsSmall, flush-IsSound, append-IsSound}
use jaeger_client_cpp.Sender.Order.{all_spans, flush-all_spans, append-all_spans}
use jaeger_client_cpp.Sender.Counts.{Counts, flush-Counts, append-Counts}
use jaeger_client_cpp.Reporter.{sweep}
use jaeger_client_cpp.Reporter.Sending.{
  Sending, queue_length, count_append, count_flush, send_span, flush_sender,
}
use jaeger_client_cpp.Reporter.Closing.{drain}

module _ {X : Type 0} (size : X → ℕ) (max_packet process : ℕ) where
  -- The state of a reporter whose transport has taken every batch.
  pub record IsDelivering (r : Sending X) : Type 0 where
    pub sound : IsSound size max_packet process r.sender
    pub sent_all : all_spans size max_packet process r.sender ≡ r.reporter.handed
    pub counted :
        r.metrics.reporter_success + length r.sender.span_buffer ≡ length r.reporter.handed
    pub no_failure : r.metrics.reporter_failure ≡ 0
    pub in_order : r.reporter.handed ++ r.reporter.queue ≡ r.reporter.accepted
    pub all_small : All (IsSmall size max_packet process) r.reporter.queue

  pub count_append-success :
      (len : ℤ) (o : Outcome × Sender X) (n : ℕ) (m : Metrics)
      → Counts size max_packet process n o
      → ((count_append len o.0 m).reporter_success + length o.1.span_buffer
          ≡ m.reporter_success + n)
        × ((count_append len o.0 m).reporter_failure ≡ m.reporter_failure)
  unfolding count_append
  count_append-success len (returned f, s) n m h = (ground (arith, h), ground (arith, h))
  count_append-success len (failed f, s) n m h = absurd h

  pub count_flush-success :
      (o : Outcome × Sender X) (n : ℕ) (m : Metrics)
      → Counts size max_packet process n o
      → ((count_flush o.0 m).reporter_success + length o.1.span_buffer ≡ m.reporter_success + n)
        × ((count_flush o.0 m).reporter_failure ≡ m.reporter_failure)
  unfolding count_flush
  count_flush-success (returned f, s) n m h = (ground (arith, h), ground (arith, h))
  count_flush-success (failed f, s) n m h = absurd h

  pub flush_sender-IsDelivering :
      (r : Sending X) → IsDelivering r → IsDelivering (flush_sender size max_packet process true r)
  unfolding flush_sender
  flush_sender-IsDelivering r h =
      let (success, failure) =
        count_flush-success _ _ r.metrics (flush-Counts size max_packet process r.sender).0 in
      record {
        sound = flush-IsSound size max_packet process true r.sender h.sound;
        sent_all = flush-all_spans size max_packet process r.sender ∙ h.sent_all;
        counted = success ∙ h.counted;
        no_failure = failure ∙ h.no_failure;
        in_order = h.in_order;
        all_small = h.all_small;
      }

  pub send_span-IsDelivering :
      (span : X) (rest : List X) (r : Sending X)
      → r.reporter.queue ≡ span ∷ rest
      → IsDelivering r
      → IsDelivering (
          send_span size max_packet process true span
            (record r { reporter = sweep (span ∷ rest) r.reporter }))
  unfolding send_span sweep
  send_span-IsDelivering span rest r q h =
      let (small, smaller) = subst (All (IsSmall size max_packet process)) q h.all_small in
      let (success, failure) =
        count_append-success (queue_length (sweep (span ∷ rest) r.reporter)) _ _ r.metrics
          (append-Counts size max_packet process span r.sender h.sound small) in
      record {
        sound = append-IsSound size max_packet process true span r.sender h.sound;
        sent_all =
            append-all_spans size max_packet process span r.sender h.sound small
            ∙ ap (λ t. t ++ span ∷ []) h.sent_all;
        counted = omega (arith, success, h.counted, length-append r.reporter.handed (span ∷ []));
        no_failure = failure ∙ h.no_failure;
        in_order =
            append_assoc r.reporter.handed (span ∷ []) rest
            ∙ ap (λ t. r.reporter.handed ++ t) (sym q)
            ∙ h.in_order;
        all_small = smaller;
      }

  pub drain-IsDelivering :
      (n : ℕ) (queue : List X) (r : Sending X)
      → r.reporter.queue ≡ queue
      → IsDelivering r
      → length queue ≤ n
      → IsDelivering (drain size max_packet process queue (replicate n true) r)
  unfolding drain send_span sweep
  drain-IsDelivering n [] r q h le = record {
    sound = h.sound;
    sent_all = h.sent_all;
    counted = h.counted;
    no_failure = h.no_failure;
    in_order = h.in_order;
    all_small = h.all_small;
  }
  drain-IsDelivering zero (span ∷ rest) r q h le = absurd (ground (arith, le))
  drain-IsDelivering (suc n) (span ∷ rest) r q h le =
      drain-IsDelivering n rest _ refl (send_span-IsDelivering span rest r q h) (omega (arith, le))
