-- ===== src/Reporter/Sending.antt =====
-- `sendSpan`, `flush`, `sweepQueue` and `close` of reporters/RemoteReporter.cpp, with the Thrift sender
-- they call and the metrics they count. Whether the transport takes a batch and whether the flush
-- interval has passed are inputs of a step.
use jaeger_client_cpp.Base.{
  ℕ, zero, suc, ◌+◌, ◌-◌, Bool, false, not, List, [], ◌∷◌, ltb, leb, if◌then◌else◌, ℤ, pos, negsuc,
}
use jaeger_client_cpp.Metrics.{Metrics, null_metrics}
use jaeger_client_cpp.Sender.{Outcome, returned, failed, Sender, new_sender, flush, append}
use jaeger_client_cpp.Reporter.{Reporter, new_reporter, report, sweep}

pub record Sending (X : Type 0) : Type 0 where
  pub reporter : Reporter X
  pub sender : Sender X
  pub metrics : Metrics

abbrev pub new_sending : {X : Type 0} → Sending X
new_sending = record { reporter = new_reporter; sender = new_sender; metrics = null_metrics }

-- `_queueLength`, which is below zero while a span is swept before it is counted.
unfoldable pub queue_length : {X : Type 0} → Reporter X → ℤ
queue_length r =
    if leb r.decrements r.increments
    then pos (r.increments - r.decrements)
    else negsuc (r.decrements - r.increments - 1)

unfoldable pub count_append : ℤ → Outcome → Metrics → Metrics
count_append len (returned flushed) m =
    if ltb 0 flushed
    then record m { reporter_success = m.reporter_success + flushed; reporter_queue_length = len }
    else m
count_append len (failed n) m = record m { reporter_failure = m.reporter_failure + n }

unfoldable pub count_flush : Outcome → Metrics → Metrics
count_flush (returned flushed) m =
    if ltb 0 flushed then record m { reporter_success = m.reporter_success + flushed } else m
count_flush (failed n) m = record m { reporter_failure = m.reporter_failure + n }

-- What the threads do next: `report` up to the unlock, the count after it, and a round of the sweep.
pub data Action (X : Type 0) : Type 0 where
  report_action : X → Action X
  count_action : Action X
  sweep_action : Bool → Bool → Action X

module _ {X : Type 0} (size : X → ℕ) (max_packet process : ℕ) where
  unfoldable pub send_span : Bool → X → Sending X → Sending X
  unfolding count_append queue_length
  send_span sent span r =
      let (outcome, sender) = append size max_packet process sent span r.sender in
      record r {
        sender = sender;
        metrics = count_append (queue_length r.reporter) outcome r.metrics;
      }

  unfoldable pub flush_sender : Bool → Sending X → Sending X
  unfolding count_flush
  flush_sender sent r =
      let (outcome, sender) = flush size max_packet process sent r.sender in
      record r { sender = sender; metrics = count_flush outcome r.metrics }

  -- One round of the loop with this queue, by whether the flush interval has passed.
  unfoldable pub sweep_loop : Bool → Bool → List X → Sending X → Sending X
  unfolding send_span flush_sender
  sweep_loop sent expired [] r =
      if r.reporter.running
      then (if expired then flush_sender sent r else r)
      else record r { reporter = sweep [] r.reporter }
  sweep_loop sent expired (span ∷ rest) r =
      send_span sent span (record r { reporter = sweep (span ∷ rest) r.reporter })

  -- A round, when the thread has not ended.
  unfoldable pub sweep_round : Bool → Bool → Sending X → Sending X
  unfolding sweep_loop
  sweep_round sent expired r =
      if r.reporter.swept then r else sweep_loop sent expired r.reporter.queue r

  unfoldable pub count_pending : ℕ → Reporter X → Reporter X
  count_pending zero r = r
  count_pending (suc n) r = record r { pending = n; increments = r.increments + 1 }

  unfoldable pub act : ℕ → Action X → Sending X → Sending X
  unfolding sweep_round count_pending
  act fixed_queue_size (report_action span) r = record r {
    reporter = report fixed_queue_size span r.reporter;
  }
  act fixed_queue_size count_action r = record r {
    reporter = count_pending r.reporter.pending r.reporter;
  }
  act fixed_queue_size (sweep_action sent expired) r = sweep_round sent expired r

  unfoldable pub acts : ℕ → List (Action X) → Sending X → Sending X
  unfolding act
  acts fixed_queue_size [] r = r
  acts fixed_queue_size (a ∷ more) r = acts fixed_queue_size more (act fixed_queue_size a r)

  -- `close` while no other thread reports: the rounds of the thread that it joins, with the answers
  -- of the transport to them, and the last flush. A closed reporter is left alone.
  unfoldable pub rounds : List Bool → Sending X → Sending X
  unfolding sweep_round
  rounds [] r = r
  rounds (sent ∷ answers) r = rounds answers (sweep_round sent false r)

  unfoldable pub close : List Bool → Bool → Sending X → Sending X
  unfolding rounds flush_sender
  close answers sent r =
      if not r.reporter.running
      then r
      else flush_sender sent
          (rounds answers (record r { reporter = record r.reporter { running = false } }))
