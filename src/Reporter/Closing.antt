-- ===== src/Reporter/Closing.antt =====
-- A remote reporter with its Thrift sender, from its start to its end.
use jaeger_client_cpp.Base.{
  ℕ, ◌+◌, ◌≤◌, ◌≡◌, refl, sym, ap, ◌∙◌, Bool, true, false, List, [], ◌∷◌, ◌++◌, append-nil,
  append_assoc, arith, length,
}
use jaeger_client_cpp.Reporter.{sweep}
use jaeger_client_cpp.Reporter.Sending.{
  Sending, send_span, flush_sender, sweep_loop, sweep_round, rounds, close,
}

module _ {X : Type 0} (size : X → ℕ) (max_packet process : ℕ) where
  -- What the rounds of a stopped reporter with this queue do: its spans are sent in order.
  unfoldable pub drain : List X → List Bool → Sending X → Sending X
  drain [] answers r = record r { reporter = record r.reporter { swept = true } }
  drain (span ∷ rest) [] r = r
  drain (span ∷ rest) (sent ∷ answers) r = drain rest answers (
      send_span size max_packet process sent span
        (record r { reporter = sweep (span ∷ rest) r.reporter }))

  round-swept :
      (sent : Bool) (r : Sending X)
      → r.reporter.swept ≡ true
      → sweep_round size max_packet process sent false r ≡ r
  unfolding sweep_round
  round-swept sent r y = simp (y, sweep_round) refl

  round-stopped :
      (sent : Bool) (r : Sending X)
      → r.reporter.queue ≡ []
      → r.reporter.running ≡ false
      → r.reporter.swept ≡ false
      → sweep_round size max_packet process sent false r
        ≡ record r { reporter = record r.reporter { swept = true } }
  unfolding sweep_round sweep_loop sweep
  round-stopped sent r q s n = simp (q, s, n, sweep_round, sweep_loop, sweep) refl

  round-span :
      (sent : Bool) (span : X) (rest : List X) (r : Sending X)
      → r.reporter.queue ≡ span ∷ rest
      → r.reporter.swept ≡ false
      → sweep_round size max_packet process sent false r
        ≡ send_span size max_packet process sent span
            (record r { reporter = sweep (span ∷ rest) r.reporter })
  unfolding sweep_round sweep_loop
  round-span sent span rest r q n = simp (q, n, sweep_round, sweep_loop) refl

  rounds-swept :
      (answers : List Bool) (r : Sending X)
      → r.reporter.swept ≡ true
      → rounds size max_packet process answers r ≡ r
  unfolding rounds
  rounds-swept [] r y = refl
  rounds-swept (sent ∷ answers) r y =
      ap (rounds size max_packet process answers) (round-swept sent r y) ∙ rounds-swept answers r y

  pub rounds-drain :
      (queue : List X) (answers : List Bool) (r : Sending X)
      → r.reporter.queue ≡ queue
      → r.reporter.running ≡ false
      → r.reporter.swept ≡ false
      → length queue + 1 ≤ length answers
      → rounds size max_packet process answers r ≡ drain queue answers r
  unfolding rounds drain send_span sweep
  rounds-drain [] [] r q s n e = absurd (ground (arith, e))
  rounds-drain [] (sent ∷ answers) r q s n e =
      ap (rounds size max_packet process answers) (round-stopped sent r q s n)
      ∙ rounds-swept answers _ refl
  rounds-drain (span ∷ rest) [] r q s n e = absurd (ground (arith, e))
  rounds-drain (span ∷ rest) (sent ∷ answers) r q s n e =
      ap (rounds size max_packet process answers) (round-span sent span rest r q n)
      ∙ rounds-drain rest answers _ refl s n (omega (arith, e))

  pub drain-reporter :
      (queue : List X) (answers : List Bool) (r : Sending X)
      → length queue + 1 ≤ length answers
      → r.reporter.queue ≡ queue
      → let t = (drain queue answers r).reporter in
        (t.swept ≡ true) × (t.queue ≡ []) × (t.handed ≡ r.reporter.handed ++ queue)
  unfolding drain send_span sweep
  drain-reporter [] answers r e q = (refl, q, sym (append-nil r.reporter.handed))
  drain-reporter (span ∷ rest) [] r e q = absurd (ground (arith, e))
  drain-reporter (span ∷ rest) (sent ∷ answers) r e q =
      let (swept, none_left, handed) = drain-reporter rest answers _ (omega (arith, e)) refl in
      (swept, none_left, handed ∙ append_assoc r.reporter.handed (span ∷ []) rest)

  -- Closing a running reporter ends its sweeping thread after as many rounds as it has spans in its
  -- queue, and one more, whatever the transport answers: the queue is empty and all its spans were given
  -- to the sender in their order, if no other thread reports meanwhile.
  pub close-ends :
      (answers : List Bool) (sent : Bool) (r : Sending X)
      → r.reporter.running ≡ true
      → r.reporter.swept ≡ false
      → length r.reporter.queue + 1 ≤ length answers
      → let t = (close size max_packet process answers sent r).reporter in
        (t.swept ≡ true) × (t.queue ≡ []) × (t.handed ≡ r.reporter.handed ++ r.reporter.queue)
  unfolding close flush_sender
  close-ends answers sent r y n e =
      let stopped : Sending X = record r { reporter = record r.reporter { running = false } } in
      let same = rounds-drain r.reporter.queue answers stopped refl refl n e in
      simp (y, close, flush_sender, same) (drain-reporter r.reporter.queue answers stopped e refl)
