-- ===== src/Baggage/Updates.antt =====
-- The restrictions that are in force after a sequence of polls.
use jaeger_client_cpp.Base.{
  Bool, true, false, Option, none, some, List, [], ◌∷◌, Bytes, if◌then◌else◌, lookup, lookup-append,
  ℤ, pos, ◌≡◌, refl, bytes_eq, bytes_eq_iff, arith,
}
use jaeger_client_cpp.Metrics.{Metrics}
use jaeger_client_cpp.Baggage.{Restriction, default_max_value_length}
use jaeger_client_cpp.Baggage.Remote.{
  Remote, Outcome, thrown, status, parsed, start, denied, allowed, KeyRestrictionMap,
  get_restriction, insert_once, build, update_restrictions, run_updates,
}

-- The list of the last response that gave one.
unfoldable pub last_success : Option (List (Bytes × ℤ)) → List Outcome → Option (List (Bytes × ℤ))
last_success found [] = found
last_success found (parsed (some success) ∷ rest) = last_success (some success) rest
last_success found (parsed none ∷ rest) = last_success found rest
last_success found (thrown ∷ rest) = last_success found rest
last_success found (status code ∷ rest) = last_success found rest

-- What a list that was received says of a key, or what holds before the first one.
unfoldable pub restriction_by : Bool → Bytes → Option (List (Bytes × ℤ)) → Restriction
restriction_by deny key none = if deny then denied else allowed (pos default_max_value_length)
restriction_by deny key (some success) = elim (lookup key success) [
  | none ↦ denied
  | some bound ↦ allowed bound
]

lookup-insert_once :
    (key j : Bytes) (found : Restriction) (m : KeyRestrictionMap)
    → lookup key (insert_once j found m) ≡ elim (lookup key m) [
      | none ↦ if bytes_eq j key then some found else none
      | some old ↦ some old
    ]
unfolding insert_once lookup
lookup-insert_once key j found m =
    ground (arith, lookup-append key m ((j, found) ∷ []), bytes_eq_iff j key)

-- A list and the map that is made of it agree.
lookup-build :
    (key : Bytes) (success : List (Bytes × ℤ)) (m : KeyRestrictionMap)
    → lookup key (build success m) ≡ elim (lookup key m) [
      | none ↦ elim (lookup key success) [ none ↦ none | some bound ↦ some (allowed bound) ]
      | some found ↦ some found
    ]
unfolding build lookup
lookup-build key [] m = ground arith
lookup-build key ((j, bound) ∷ success) m = ground (
  arith,
  lookup-build key success (insert_once j (allowed bound) m),
  lookup-insert_once key j (allowed bound) m,
)

-- A manager that holds what these lists say.
abbrev pub Holds : Remote → Bool → Option (List (Bytes × ℤ)) → Type 0
Holds r deny found = (r.deny_on_initialization_failure ≡ deny) × elim found [
  | none ↦ r.initialized ≡ false
  | some success ↦ (r.initialized ≡ true) × (r.restrictions ≡ build success [])
]

pub get_restriction-Holds :
    (r : Remote) (deny : Bool) (found : Option (List (Bytes × ℤ))) (service key : Bytes)
    → Holds r deny found
    → get_restriction r service key ≡ restriction_by deny key found
unfolding get_restriction restriction_by
get_restriction-Holds r deny none service key (d, i) = ground arith
get_restriction-Holds r deny (some success) service key (d, (i, e)) =
    rw (i, e, lookup-build key success []) (unfold lookup in ground arith)

pub run_updates-Holds :
    (outcomes : List Outcome) (r : Remote) (m : Metrics) (deny : Bool)
    (found : Option (List (Bytes × ℤ)))
    → Holds r deny found
    → Holds (run_updates outcomes r m).0 deny (last_success found outcomes)
unfolding run_updates update_restrictions last_success
run_updates-Holds [] r m deny found h = h
run_updates-Holds (thrown ∷ rest) r m deny found h = run_updates-Holds rest r _ deny found h
run_updates-Holds (status code ∷ rest) r m deny found h = run_updates-Holds rest r m deny found h
run_updates-Holds (parsed none ∷ rest) r m deny found h = run_updates-Holds rest r _ deny found h
run_updates-Holds (parsed (some success) ∷ rest) r m deny found h =
    run_updates-Holds rest _ _ deny (some success) (h.0, (refl, refl))

-- After any sequence of polls of a new manager, the restriction of a key is what the last list
-- that was received says, where the first entry of a key counts and a key that is not listed is
-- not allowed; failed polls change nothing. Until a list is received, the key is denied or has the
-- default length, as configured.
pub get_restriction-run_updates :
    (outcomes : List Outcome) (deny : Bool) (m : Metrics) (service key : Bytes)
    → get_restriction (run_updates outcomes (start deny) m).0 service key
      ≡ restriction_by deny key (last_success none outcomes)
get_restriction-run_updates outcomes deny m service key =
    get_restriction-Holds _ deny (last_success none outcomes) service key
      (run_updates-Holds outcomes (start deny) m deny none (refl, refl))
