-- ===== src/Tracer/Closing.antt =====
-- `Close` of Tracer.h, which the destructor calls again.
use jaeger_client_cpp.Base.{◌≡◌, refl, Bool, false, if◌then◌else◌, arith}
use jaeger_client_cpp.Baggage.Remote as Manager
use jaeger_client_cpp.Samplers.{Arithmetic}
use jaeger_client_cpp.Samplers.Remote as Controlled

-- What `close` of a part leaves, with whether it throws.
abbrev pub Closer : Type 0 → Type 0
Closer P = P → P × Bool

-- An exception of one part leaves the parts behind it open; it is logged.
unfoldable pub close_tracer :
    {R S M : Type 0} → Closer R → Closer S → Closer M → R × S × M → R × S × M
close_tracer close_reporter close_sampler close_manager (r, s, m) =
    let (r1, reporter_threw) = close_reporter r in
    let (s1, sampler_threw) = close_sampler s in
    let (m1, manager_threw) = close_manager m in
    if reporter_threw then (r1, s, m) else if sampler_threw then (r1, s1, m) else (r1, s1, m1)

-- A part that does not throw, and is the same when it is closed again.
pub record ClosesOnce {P : Type 0} (c : Closer P) : Type 0 where
  pub silent : (p : P) → (c p).1 ≡ false
  pub again : (p : P) → (c (c p).0).0 ≡ (c p).0

-- A tracer whose parts close once without an exception is the same when it is closed again, as the
-- destructor does.
pub close_tracer-again :
    {R S M : Type 0} (close_reporter : Closer R) (close_sampler : Closer S)
    (close_manager : Closer M) (parts : R × S × M)
    → ClosesOnce close_reporter
    → ClosesOnce close_sampler
    → ClosesOnce close_manager
    → let closed = close_tracer close_reporter close_sampler close_manager parts in
      close_tracer close_reporter close_sampler close_manager closed ≡ closed
unfolding close_tracer
close_tracer-again close_reporter close_sampler close_manager (r, s, m) hr hs hm =
    rw (hr.silent r, hs.silent s)
      (rw
        (
          hr.silent (close_reporter r).0,
          hs.silent (close_sampler s).0,
          hr.again r,
          hs.again s,
          hm.again m,
        )
        refl)

manager_ClosesOnce : ClosesOnce (λ r. ((Manager.close r).0, false))
unfolding Manager.close
manager_ClosesOnce = record { silent = λ r. refl; again = λ r. ground arith }

sampler_ClosesOnce :
    {D : Type 0} (a : Arithmetic D) → ClosesOnce (λ r. ((Controlled.close a r).0, false))
unfolding Controlled.close
sampler_ClosesOnce a = record { silent = λ r. refl; again = λ r. ground arith }
