-- ===== src/Reporter/Queue.antt =====
-- The queue of the remote reporter, whatever the order of the threads' steps.
use jaeger_client_cpp.Base.{
  ℕ, ◌+◌, ◌≤◌, ◌≡◌, refl, sym, ap, ◌∙◌, true, false, false≢true, List, [], ◌∷◌, ◌++◌, append-nil,
  append_assoc, arith, length, length-append, ltb, Bool-cases, inl, inr,
}
use jaeger_client_cpp.Reporter.{
  Reporter, report, sweep, Step, report_step, count_step, sweep_step, close_step, Reached, fresh,
  later,
}

module _ {X : Type 0} (fixed_queue_size : ℕ) where
  -- What holds in every state that is reached.
  pub record IsConsistent (r : Reporter X) : Type 0 where
    pub bounded : length r.queue ≤ fixed_queue_size
    pub in_order : r.handed ++ r.queue ≡ r.accepted
    pub counted : r.increments + r.pending ≡ r.decrements + length r.queue

  report-IsConsistent :
      (span : X) (r : Reporter X) → IsConsistent r → IsConsistent (report fixed_queue_size span r)
  unfolding report
  report-IsConsistent span r h = elim (Bool-cases (ltb (length r.queue) fixed_queue_size)) [
    | inl e ↦
        let longer = length-append r.queue (span ∷ []) in
        rw (e, report)
          (record {
            bounded = ground (arith, longer, e);
            in_order =
                sym (append_assoc r.handed r.queue (span ∷ []))
                ∙ ap (λ t. t ++ span ∷ []) h.in_order;
            counted = omega (arith, longer, h.counted);
          })
    | inr e ↦
        rw (e, report) (record { bounded = h.bounded; in_order = h.in_order; counted = h.counted })
  ]

  sweep-IsConsistent :
      (queue : List X) (r : Reporter X)
      → r.queue ≡ queue
      → IsConsistent r
      → IsConsistent (sweep queue r)
  unfolding sweep
  sweep-IsConsistent [] r e h = elim (Bool-cases r.running) [
    | inl y ↦ simp (y, sweep) h
    | inr y ↦
        rw (y, sweep) (record { bounded = h.bounded; in_order = h.in_order; counted = h.counted })
  ]
  sweep-IsConsistent (span ∷ rest) r e h = record {
    bounded = omega (arith, ap length e, h.bounded);
    in_order =
        append_assoc r.handed (span ∷ []) rest ∙ ap (λ t. r.handed ++ t) (sym e) ∙ h.in_order;
    counted = omega (arith, ap length e, h.counted);
  }

  Step-IsConsistent :
      {r t : Reporter X} → Step fixed_queue_size r t → IsConsistent r → IsConsistent t
  Step-IsConsistent (report_step r span) h = report-IsConsistent span r h
  Step-IsConsistent (count_step r n e) h = record {
    bounded = h.bounded;
    in_order = h.in_order;
    counted = omega (arith, e, h.counted);
  }
  Step-IsConsistent (sweep_step r e) h = sweep-IsConsistent r.queue r refl h
  Step-IsConsistent (close_step r) h = record {
    bounded = h.bounded;
    in_order = h.in_order;
    counted = h.counted;
  }

  -- In every order of the steps of the threads, the queue stays within its size, the spans that
  -- were given to the sender and those that wait are the accepted ones in their order, and the
  -- length that is counted is that of the queue, less the threads that have pushed and not counted
  -- yet.
  pub Reached-IsConsistent : {r : Reporter X} → Reached fixed_queue_size r → IsConsistent r
  Reached-IsConsistent fresh = record {
    bounded = omega arith;
    in_order = refl;
    counted = omega arith;
  }
  Reached-IsConsistent (later before step) = Step-IsConsistent step (Reached-IsConsistent before)

  nothing_left :
      (queue : List X) (r : Reporter X)
      → r.queue ≡ queue
      → r.swept ≡ false
      → (sweep queue r).swept ≡ true
      → (queue ≡ []) × (r.running ≡ false)
  unfolding sweep
  nothing_left [] r e n y = (refl, ground arith)
  nothing_left (span ∷ rest) r e n y = absurd (false≢true (sym n ∙ y))

  -- In every order of the steps of the threads, the sweeping thread ends only after `close`, and
  -- when every span that was accepted so far was given to the sender, in the order of acceptance.
  pub sweep-ends :
      {r : Reporter X}
      → Reached fixed_queue_size r
      → r.swept ≡ false
      → (sweep r.queue r).swept ≡ true
      → (r.running ≡ false) × (r.handed ≡ r.accepted)
  sweep-ends {r = r} before n y =
      let (none_left, stopped) = nothing_left r.queue r refl n y in
      let h = Reached-IsConsistent before in
      (stopped, sym (append-nil r.handed) ∙ ap (λ t. r.handed ++ t) (sym none_left) ∙ h.in_order)
