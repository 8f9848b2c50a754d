-- ===== src/Baggage/Polling/Restrictions.antt =====
-- The restrictions that are in force while the manager polls.
use jaeger_client_cpp.Base.{ℕ, ◌+◌, Option, List, [], ◌∷◌, Bytes, if◌then◌else◌, leb, ℤ}
use jaeger_client_cpp.Metrics.{Metrics}
use jaeger_client_cpp.Uri.Parts.{Uri}
use jaeger_client_cpp.Baggage.Remote.{Remote, Outcome}
use jaeger_client_cpp.Baggage.Polling.{Turn, outcome_of}

module _ (client_version : Bytes) (read_json : Bytes → Option (Option (List (Bytes × ℤ)))) where
  -- The outcomes of the requests that the turns make: there is one in each turn whose wait has lasted
  -- for the interval, up to the turn in which the manager is closed.
  pub asked : Uri → ℕ → List Turn → ℕ → List Outcome
  asked uri interval [] last_update = []
  asked uri interval (turn ∷ turns) last_update =
      let due = leb (last_update + interval) turn.now in
      let later = asked uri interval turns (if due then turn.updated else last_update) in
      if turn.closed
      then []
      else if due
      then outcome_of client_version read_json uri turn.exchange ∷ later
      else later
