-- ===== src/Baggage/Remote.antt =====
-- `RemoteRestrictionManager` of baggage/RemoteRestrictionManager.h and .cpp: `getRestriction`,
-- `updateRestrictions` and `close`. The HTTP client and the JSON parser give the outcome of a poll.
use jaeger_client_cpp.Base.{
  ℕ, ◌+◌, Bool, true, false, not, Option, none, some, List, [], ◌∷◌, ◌++◌, Bytes, if◌then◌else◌,
  lookup, ℤ, pos,
}
use jaeger_client_cpp.Metrics.{Metrics}
use jaeger_client_cpp.Baggage.{Restriction, RestrictionManager, default_max_value_length}

abbrev pub KeyRestrictionMap : Type 0
KeyRestrictionMap = List (Bytes × Restriction)

pub record Remote : Type 0 where
  pub deny_on_initialization_failure : Bool
  pub running : Bool
  pub initialized : Bool
  pub restrictions : KeyRestrictionMap

-- How a request ends: an exception of the client or of the parser, a response with this status, or
-- a response with status 200 whose `success` was set to this list, or was not set.
pub data Outcome : Type 0 where
  thrown : Outcome
  status : ℕ → Outcome
  parsed : Option (List (Bytes × ℤ)) → Outcome

-- The constructor, as far as `getRestriction` reads it.
abbrev pub start : Bool → Remote
start deny = record {
  deny_on_initialization_failure = deny;
  running = true;
  initialized = false;
  restrictions = [];
}

abbrev pub denied : Restriction
denied = record { key_allowed = false; max_value_length = pos 0 }

abbrev pub allowed : ℤ → Restriction
allowed n = record { key_allowed = true; max_value_length = n }

unfoldable pub get_restriction : Remote → RestrictionManager
get_restriction r service key =
    if not r.initialized
    then (if r.deny_on_initialization_failure
        then denied
        else allowed (pos default_max_value_length))
    else elim (lookup key r.restrictions) [ none ↦ denied | some found ↦ found ]

-- `std::inserter` on the map: a key that is there already keeps its value.
unfoldable pub insert_once : Bytes → Restriction → KeyRestrictionMap → KeyRestrictionMap
insert_once key found m = elim (lookup key m) [ none ↦ m ++ (key, found) ∷ [] | some old ↦ m ]

unfoldable pub build : List (Bytes × ℤ) → KeyRestrictionMap → KeyRestrictionMap
unfolding insert_once
build [] m = m
build ((key, bound) ∷ rest) m = build rest (insert_once key (allowed bound) m)

-- `updateRestrictions`, which was given a response with status 200 if the body was parsed.
unfoldable pub update_restrictions : Outcome → Remote → Metrics → Remote × Metrics
unfolding build
update_restrictions thrown r m = (
  r,
  record m { baggage_restrictions_update_failure = m.baggage_restrictions_update_failure + 1 },
)
update_restrictions (status code) r m = (r, m)
update_restrictions (parsed none) r m = (
  r,
  record m { baggage_restrictions_update_failure = m.baggage_restrictions_update_failure + 1 },
)
update_restrictions (parsed (some success)) r m = (
  record r { restrictions = build success []; initialized = true },
  record m { baggage_restrictions_update_success = m.baggage_restrictions_update_success + 1 },
)

-- `close`, with whether it stops the thread.
unfoldable pub close : Remote → Remote × Bool
close r = if not r.running then (r, false) else (record r { running = false }, true)

-- The updates of `poll`, one after the other.
unfoldable pub run_updates : List Outcome → Remote → Metrics → Remote × Metrics
unfolding update_restrictions
run_updates [] r m = (r, m)
run_updates (outcome ∷ rest) r m =
    let (r', m') = update_restrictions outcome r m in run_updates rest r' m'
