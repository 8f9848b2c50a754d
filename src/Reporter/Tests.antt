-- ===== src/Reporter/Tests.antt =====
-- Runs of the theorems on the reporter.
use jaeger_client_cpp.Base.{
  ℕ, ◌+◌, ◌≡◌, refl, ap, true, false, List, [], ◌∷◌, ◌++◌, length, replicate, arith,
}
use jaeger_client_cpp.Reporter.{
  Reporter, new_reporter, report, sweep, report_step, sweep_step, close_step, Reached, fresh, later,
}
use jaeger_client_cpp.Reporter.Queue.{IsConsistent, Reached-IsConsistent, sweep-ends}
use jaeger_client_cpp.Reporter.Sending.{
  Sending, new_sending, Action, report_action, count_action, sweep_action, send_span, sweep_loop,
  sweep_round, count_pending, act, acts, close,
}
use jaeger_client_cpp.Reporter.Closing.{close-ends}
use jaeger_client_cpp.Reporter.Delivery.{IsDelivered, close-IsDelivered}

-- A span is pushed and swept before it is counted; the reporter is closed in between.
abbrev pushed : Reporter ℕ
pushed = report 2 7 new_reporter

abbrev swept_once : Reporter ℕ
swept_once = sweep (7 ∷ []) pushed

abbrev closed : Reporter ℕ
closed = record swept_once { running = false }

closed-Reached : Reached 2 closed
unfolding report sweep
closed-Reached =
    later (later (later fresh (report_step new_reporter 7)) (sweep_step pushed refl))
      (close_step swept_once)

Reached-IsConsistent_example : IsConsistent 2 closed
Reached-IsConsistent_example = Reached-IsConsistent 2 closed-Reached

still_running : closed.swept ≡ false
unfolding report sweep
still_running = refl

then_swept : (sweep closed.queue closed).swept ≡ true
unfolding report sweep
then_swept = refl

sweep-ends_example : (closed.running ≡ false) × (closed.handed ≡ closed.accepted)
sweep-ends_example = sweep-ends 2 closed-Reached still_running then_swept

-- Two spans are reported and one is swept before the reporter is closed, with spans of 3 bytes.
abbrev three : ℕ → ℕ
three span = 3

abbrev run_actions : List (Action ℕ)
run_actions =
    report_action 7
    ∷ report_action 8
    ∷ sweep_action true false
    ∷ count_action
    ∷ report_action 9
    ∷ []

abbrev running_sending : Sending ℕ
running_sending = acts three 100 10 4 run_actions new_sending

is_running : running_sending.reporter.running ≡ true
unfolding acts act report sweep_round sweep_loop sweep send_span count_pending
is_running = refl

is_unswept : running_sending.reporter.swept ≡ false
unfolding acts act report sweep_round sweep_loop sweep send_span count_pending
is_unswept = refl

two_wait : running_sending.reporter.queue ≡ 8 ∷ 9 ∷ []
unfolding acts act report sweep_round sweep_loop sweep send_span count_pending
two_wait = refl

close-ends_example :
    let t = (close three 100 10 (true ∷ false ∷ true ∷ []) false running_sending).reporter in
    (t.swept ≡ true)
    × (t.queue ≡ [])
    × (t.handed ≡ running_sending.reporter.handed ++ running_sending.reporter.queue)
close-ends_example =
    close-ends three 100 10 (true ∷ false ∷ true ∷ []) false running_sending is_running is_unswept
      (omega (arith, ap length two_wait))

abbrev delivered : Sending ℕ
delivered =
    close three 100 10 (replicate (length running_sending.reporter.queue + 1 + 0) true) true
      running_sending

close-IsDelivered_example : IsDelivered three 100 10 3 delivered
close-IsDelivered_example =
    close-IsDelivered three 100 10 4 run_actions 0
      (omega arith, (omega arith, (refl, (tt, (omega arith, tt)))))
