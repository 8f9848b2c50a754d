-- ===== src/Samplers/Remote/Polling.antt =====
-- The loop that polls the controller, and its end.
use jaeger_client_cpp.Base.{
  ℕ, ◌+◌, ◌≤◌, ◌≡◌, refl, Bool, true, false, Option, List, [], ◌∷◌, ◌++◌, length, if◌then◌else◌,
  Bool-cases, inl, inr, arith,
}
use jaeger_client_cpp.Metrics.{Metrics}
use jaeger_client_cpp.Samplers.{Arithmetic}
use jaeger_client_cpp.Samplers.Remote.{
  StrategyResponse, Remote, update_sampler, close, poll_controller,
}

module _ {D : Type 0} (a : Arithmetic D) where
  abbrev pub Round : Type 0
  Round = ℕ × Option (StrategyResponse D) × Bool

  abbrev pub requests : Metrics → ℕ
  requests m = m.sampler_retrieved + m.sampler_query_failure

  poll_controller-stopped :
      (rounds : List Round) (r : Remote D) (m : Metrics)
      → r.running ≡ false
      → poll_controller a rounds r m ≡ (r, m)
  unfolding poll_controller
  poll_controller-stopped [] r m e = refl
  poll_controller-stopped ((now, response, closed) ∷ rounds) r m e = simp (e, poll_controller) refl

  close-stops : (r : Remote D) → (close a r).0.running ≡ false
  unfolding close
  close-stops r = ground arith

  update_sampler-requests :
      (now : ℕ) (response : Option (StrategyResponse D)) (r : Remote D) (m : Metrics)
      → requests (update_sampler a now response r m).1 ≡ requests m + 1
  unfolding update_sampler
  update_sampler-requests now response r m = ground arith

  -- The polling thread ends: once the sampler is closed in a round, no later round makes a request, so
  -- that there was at most one request for each round up to that one.
  pub poll_controller-ends :
      (before after : List Round) (now : ℕ) (response : Option (StrategyResponse D)) (r : Remote D)
      (m : Metrics)
      → let t = poll_controller a (before ++ (now, response, true) ∷ after) r m in
        (t.0.running ≡ false) × (requests t.1 ≤ requests m + length before + 1)
  unfolding poll_controller
  poll_controller-ends [] after now response r m =
      let (r1, m1) = update_sampler a now response r m in
      let one = update_sampler-requests now response r m in
      elim (Bool-cases r.running) [
        | inl y ↦
            simp
              (y, poll_controller, poll_controller-stopped after (close a r1).0 m1 (close-stops r1))
              (close-stops r1, omega (arith, one))
        | inr y ↦ simp (y, poll_controller) (refl, omega arith)
      ]
  poll_controller-ends ((start, answer, closed) ∷ before) after now response r m =
      let (r1, m1) = update_sampler a start answer r m in
      let one = update_sampler-requests start answer r m in
      let r2 : Remote D = if closed then (close a r1).0 else r1 in
      let (stopped, few) = poll_controller-ends before after now response r2 m1 in
      elim (Bool-cases r.running) [
        | inl y ↦ simp (y, poll_controller) (stopped, omega (arith, one, few))
        | inr y ↦ simp (y, poll_controller) (refl, omega arith)
      ]
