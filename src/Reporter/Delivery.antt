-- ===== src/Reporter/Delivery.antt =====
-- What a transport that takes every batch receives of a remote reporter, up to its `close`.
use jaeger_client_cpp.Base.{
  ℕ, zero, suc, ◌+◌, ◌≤◌, ◌≡◌, refl, sym, ap, ◌∙◌, subst, Bool, true, false, List, [], ◌∷◌, ◌++◌,
  append-nil, append_assoc, arith, ltb, length, length-append, replicate, length-replicate, All,
  All-append, Bool-cases, inl, inr,
}
use jaeger_client_cpp.Sender.Process.{IsSmall, new_sender-IsSound}
use jaeger_client_cpp.Sender.Order.{flatten}
use jaeger_client_cpp.Sender.Counts.{flush-Counts}
use jaeger_client_cpp.Reporter.{Reporter, report, sweep}
use jaeger_client_cpp.Reporter.Sending.{
  Sending, new_sending, Action, report_action, count_action, sweep_action, send_span, flush_sender,
  sweep_loop, sweep_round, count_pending, act, acts, close,
}
use jaeger_client_cpp.Reporter.Closing.{drain, rounds-drain, drain-reporter}
use jaeger_client_cpp.Reporter.Draining.{
  IsDelivering, flush_sender-IsDelivering, send_span-IsDelivering, drain-IsDelivering,
}

module _ {X : Type 0} (size : X → ℕ) (max_packet process : ℕ) where
  -- The actions of a run: the spans that are reported fit a packet, and the transport takes the batches.
  abbrev pub IsTaken : Action X → Type 0
  IsTaken (report_action span) = IsSmall size max_packet process span
  IsTaken count_action = Unit {0}
  IsTaken (sweep_action sent expired) = sent ≡ true

  abbrev pub reports : List (Action X) → ℕ
  reports [] = 0
  reports (report_action span ∷ more) = reports more + 1
  reports (count_action ∷ more) = reports more
  reports (sweep_action sent expired ∷ more) = reports more

  -- A running reporter that delivers, where `n` spans were reported.
  record IsRunning (n : ℕ) (r : Sending X) : Type 0 where
    delivering : IsDelivering size max_packet process r
    running : r.reporter.running ≡ true
    not_swept : r.reporter.swept ≡ false
    accounted : length r.reporter.accepted + r.reporter.dropped ≡ n

  report-IsRunning :
      (fixed_queue_size : ℕ) (span : X) (n : ℕ) (r : Sending X)
      → IsSmall size max_packet process span
      → IsRunning n r
      → IsRunning (n + 1) (record r { reporter = report fixed_queue_size span r.reporter })
  unfolding report
  report-IsRunning fixed_queue_size span n r small h =
      elim (Bool-cases (ltb (length r.reporter.queue) fixed_queue_size)) [
        | inl e ↦
            rw (e, report)
              (record {
                delivering = record {
                  sound = h.delivering.sound;
                  sent_all = h.delivering.sent_all;
                  counted = h.delivering.counted;
                  no_failure = h.delivering.no_failure;
                  in_order =
                      sym (append_assoc r.reporter.handed r.reporter.queue (span ∷ []))
                      ∙ ap (λ t. t ++ span ∷ []) h.delivering.in_order;
                  all_small = All-append _ r.reporter.queue _ h.delivering.all_small (small, tt);
                };
                running = h.running;
                not_swept = h.not_swept;
                accounted =
                    omega (arith, h.accounted, length-append r.reporter.accepted (span ∷ []));
              })
        | inr e ↦
            rw (e, report)
              (record {
                delivering = record {
                  sound = h.delivering.sound;
                  sent_all = h.delivering.sent_all;
                  counted = h.delivering.counted;
                  no_failure = h.delivering.no_failure;
                  in_order = h.delivering.in_order;
                  all_small = h.delivering.all_small;
                };
                running = h.running;
                not_swept = h.not_swept;
                accounted = omega (arith, h.accounted);
              })
      ]

  flush_sender-IsRunning :
      (n : ℕ) (r : Sending X)
      → IsRunning n r
      → IsRunning n (flush_sender size max_packet process true r)
  flush_sender-IsRunning n r h =
      unfold flush_sender in
      record {
        delivering = flush_sender-IsDelivering size max_packet process r h.delivering;
        running = h.running;
        not_swept = h.not_swept;
        accounted = h.accounted;
      }

  sweep-IsRunning :
      (expired : Bool) (queue : List X) (n : ℕ) (r : Sending X)
      → r.reporter.queue ≡ queue
      → IsRunning n r
      → IsRunning n (sweep_loop size max_packet process true expired queue r)
  unfolding sweep_loop
  sweep-IsRunning expired [] n r q h = elim (Bool-cases expired) [
    | inl y ↦ simp (h.running, y, sweep_loop) (flush_sender-IsRunning n r h)
    | inr y ↦ simp (h.running, y, sweep_loop) h
  ]
  sweep-IsRunning expired (span ∷ rest) n r q h =
      unfold send_span in
      unfold sweep in
      record {
        delivering = send_span-IsDelivering size max_packet process span rest r q h.delivering;
        running = h.running;
        not_swept = h.not_swept;
        accounted = h.accounted;
      }

  count-IsRunning :
      (n pending : ℕ) (r : Sending X)
      → IsRunning n r
      → IsRunning n
          (record r { reporter = count_pending size max_packet process pending r.reporter })
  unfolding count_pending
  count-IsRunning n zero r h = h
  count-IsRunning n (suc pending) r h = record {
    delivering = record {
      sound = h.delivering.sound;
      sent_all = h.delivering.sent_all;
      counted = h.delivering.counted;
      no_failure = h.delivering.no_failure;
      in_order = h.delivering.in_order;
      all_small = h.delivering.all_small;
    };
    running = h.running;
    not_swept = h.not_swept;
    accounted = h.accounted;
  }

  renumber : (m n : ℕ) (r : Sending X) → m ≡ n → IsRunning m r → IsRunning n r
  renumber m n r e h = subst (λ k. IsRunning k r) e h

  acts-IsRunning :
      (fixed_queue_size : ℕ) (actions : List (Action X)) (n : ℕ) (r : Sending X)
      → All IsTaken actions
      → IsRunning n r
      → IsRunning (n + reports actions) (acts size max_packet process fixed_queue_size actions r)
  unfolding acts act sweep_round
  acts-IsRunning fixed_queue_size [] n r taken h = renumber n (n + 0) r (omega arith) h
  acts-IsRunning fixed_queue_size (report_action span ∷ more) n r (small, taken) h =
      renumber (n + 1 + reports more) (n + (reports more + 1)) _ (omega arith) (
        acts-IsRunning fixed_queue_size more (n + 1) _ taken
          (report-IsRunning fixed_queue_size span n r small h))
  acts-IsRunning fixed_queue_size (count_action ∷ more) n r (u, taken) h =
      acts-IsRunning fixed_queue_size more n _ taken (count-IsRunning n r.reporter.pending r h)
  acts-IsRunning fixed_queue_size (sweep_action sent expired ∷ more) n r (y, taken) h =
      acts-IsRunning fixed_queue_size more n _ taken
        (simp (y, h.not_swept, sweep_round) (sweep-IsRunning expired r.reporter.queue n r refl h))

  new_sending-IsRunning : IsRunning 0 new_sending
  new_sending-IsRunning = record {
    delivering = record {
      sound = new_sender-IsSound size max_packet process;
      sent_all = refl;
      counted = omega arith;
      no_failure = refl;
      in_order = refl;
      all_small = tt;
    };
    running = refl;
    not_swept = refl;
    accounted = omega arith;
  }

  drain-accepted :
      (queue : List X) (answers : List Bool) (r : Sending X)
      → let t = (drain size max_packet process queue answers r).reporter in
        (t.accepted ≡ r.reporter.accepted) × (t.dropped ≡ r.reporter.dropped)
  unfolding drain send_span sweep
  drain-accepted [] answers r = (refl, refl)
  drain-accepted (span ∷ rest) [] r = (refl, refl)
  drain-accepted (span ∷ rest) (sent ∷ answers) r = drain-accepted rest answers _

  -- What a closed reporter has delivered, where `n` spans were reported.
  pub record IsDelivered (n : ℕ) (r : Sending X) : Type 0 where
    pub all_sent : flatten size max_packet process r.sender.emitted ≡ r.reporter.accepted
    pub nothing_kept : r.sender.span_buffer ≡ []
    pub success : r.metrics.reporter_success ≡ length r.reporter.accepted
    pub no_failure : r.metrics.reporter_failure ≡ 0
    pub accounted : r.metrics.reporter_success + r.reporter.dropped ≡ n

  flush-IsDelivered :
      (n : ℕ) (r : Sending X)
      → IsDelivering size max_packet process r
      → r.reporter.queue ≡ []
      → length r.reporter.accepted + r.reporter.dropped ≡ n
      → IsDelivered n (flush_sender size max_packet process true r)
  flush-IsDelivered n r h q e =
      let t = flush_sender size max_packet process true r in
      let f = flush_sender-IsDelivering size max_packet process r h in
      let kept : t.sender.span_buffer ≡ [] =
        unfold flush_sender in (flush-Counts size max_packet process r.sender).1 in
      let same : t.reporter ≡ r.reporter = unfold flush_sender in refl in
      let none_left : t.reporter.queue ≡ [] = ap (λ (p : Reporter X). p.queue) same ∙ q in
      let all : t.reporter.handed ≡ t.reporter.accepted =
        sym (append-nil t.reporter.handed)
        ∙ ap (λ u. t.reporter.handed ++ u) (sym none_left)
        ∙ f.in_order in
      let counted : t.metrics.reporter_success ≡ length t.reporter.accepted =
        omega (arith, f.counted, ap length kept, ap length all) in
      record {
        all_sent =
            sym (append-nil (flatten size max_packet process t.sender.emitted))
            ∙ ap (λ u. flatten size max_packet process t.sender.emitted ++ u) (sym kept)
            ∙ f.sent_all
            ∙ all;
        nothing_kept = kept;
        success = counted;
        no_failure = f.no_failure;
        accounted = omega (
          arith,
          counted,
          e,
          ap (λ (p : Reporter X). length p.accepted) same,
          ap (λ (p : Reporter X). p.dropped) same,
        );
      }

  -- A new reporter delivers every span it accepts: after any reports and sweeps in any order, and a
  -- `close` whose thread has as many rounds as there are spans in the queue and one more, the batches
  -- that were sent hold the accepted spans in their order, nothing is left in a buffer, and the
  -- metrics count each reported span once, as a success or as dropped. It holds if every reported span
  -- fits a packet and the transport takes every batch.
  pub close-IsDelivered :
      (fixed_queue_size : ℕ) (actions : List (Action X)) (rounds_more : ℕ)
      → All IsTaken actions
      → let r = acts size max_packet process fixed_queue_size actions new_sending in
        let n = length r.reporter.queue + 1 + rounds_more in
        IsDelivered (reports actions) (close size max_packet process (replicate n true) true r)
  unfolding close
  close-IsDelivered fixed_queue_size actions rounds_more taken =
      let r = acts size max_packet process fixed_queue_size actions new_sending in
      let h = acts-IsRunning fixed_queue_size actions 0 new_sending taken new_sending-IsRunning in
      let n = length r.reporter.queue + 1 + rounds_more in
      let answers = replicate n true in
      let stopped : Sending X = record r { reporter = record r.reporter { running = false } } in
      let delivering : IsDelivering size max_packet process stopped = record {
        sound = h.delivering.sound;
        sent_all = h.delivering.sent_all;
        counted = h.delivering.counted;
        no_failure = h.delivering.no_failure;
        in_order = h.delivering.in_order;
        all_small = h.delivering.all_small;
      } in
      let enough : length r.reporter.queue + 1 ≤ length answers =
        omega (arith, length-replicate n true) in
      let same =
        rounds-drain size max_packet process r.reporter.queue answers stopped refl refl h.not_swept
          enough in
      let (swept, none_left, handed) =
        drain-reporter size max_packet process r.reporter.queue answers stopped enough refl in
      let (accepted, dropped) = drain-accepted r.reporter.queue answers stopped in
      simp (h.running, close, same)
        (flush-IsDelivered (reports actions) _
          (drain-IsDelivering size max_packet process n r.reporter.queue stopped refl delivering
            (omega arith))
          none_left (omega (arith, ap length accepted, dropped, h.accounted)))
