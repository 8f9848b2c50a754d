-- ===== src/Reporter/Others.antt =====
-- reporters/InMemoryReporter.h and reporters/CompositeReporter.h.
use jaeger_client_cpp.Base.{ℕ, List, [], ◌∷◌, ◌++◌, length}

-- `InMemoryReporter`, whose state is the spans in the order of their reports.
unfoldable pub report_in_memory : {X : Type 0} → X → List X → List X
report_in_memory span spans = spans ++ span ∷ []

abbrev pub spans_submitted : {X : Type 0} → List X → ℕ
spans_submitted spans = length spans

abbrev pub reset : {X : Type 0} → List X → List X
reset spans = []

-- `CompositeReporter`: the virtual functions of each reporter act on the state that they share, one
-- after the other.
pub record Virtual (X S : Type 0) : Type 0 where
  pub report_to : X → S → S
  pub close_it : S → S

unfoldable pub report_all : {X S : Type 0} → List (Virtual X S) → X → S → S
report_all [] span s = s
report_all (r ∷ reporters) span s = report_all reporters span (r.report_to span s)

unfoldable pub close_all : {X S : Type 0} → List (Virtual X S) → S → S
close_all [] s = s
close_all (r ∷ reporters) s = close_all reporters (r.close_it s)
