-- ===== src/Baggage/Polling.antt =====
-- The constructor, `poll` and the request of `updateRestrictions` in baggage/RemoteRestrictionManager.h
-- and .cpp. The socket, the clock, the JSON parser and the resolved address are parameters.
pub mod Restrictions
pub mod Requests
use jaeger_client_cpp.Base.{
  ℕ, ◌+◌, ◌*◌, Bool, true, false, not, Option, none, some, List, [], ◌∷◌, ◌++◌, Bytes, codes,
  if◌then◌else◌, is_empty, leb, ◌==◌, ℤ, pos, negsuc,
}
use jaeger_client_cpp.Metrics.{Metrics}
use jaeger_client_cpp.Decimal.{print_int}
use jaeger_client_cpp.Uri.{query_escape}
use jaeger_client_cpp.Uri.Parts.{Uri, parse}
use jaeger_client_cpp.Http.{http_get}
use jaeger_client_cpp.Baggage.Remote.{
  Remote, Outcome, thrown, status, parsed, start, update_restrictions, close,
}

-- An address of `IPAddress`, by its printed host and its 16-bit port.
pub record IpAddress : Type 0 where
  pub host : Bytes
  pub port : ℕ

-- `IPAddress::authority`
unfoldable pub ip_authority : IpAddress → Bytes
ip_authority address =
    if not (address.port == 0)
    then address.host ++ b':' ∷ print_int (pos address.port)
    else address.host

abbrev pub default_host_port : Bytes
default_host_port = codes "127.0.0.1:5778"

-- A minute, in nanoseconds.
abbrev pub default_refresh_interval : ℕ
default_refresh_interval = 60 * 1000000000

-- What the constructor takes in place of an empty address and an interval of zero.
unfoldable pub server_host_port : Bytes → Bytes
server_host_port host_port = if is_empty host_port then default_host_port else host_port

unfoldable pub refresh_interval : ℕ → ℕ
refresh_interval interval = if interval == 0 then default_refresh_interval else interval

-- The URI that `poll` puts together and parses.
unfoldable pub remote_uri : IpAddress → Bytes → Uri
unfolding ip_authority query_escape parse
remote_uri address service_name = parse (
    codes "http://"
    ++ (ip_authority address
        ++ (codes "/baggageRestrictions?service=" ++ query_escape service_name)))

-- A turn of the loop of `poll`: whether the manager is closed before its wait ends, the time of the
-- clock behind the wait, the server, and the time behind the request.
pub record Turn : Type 0 where
  pub closed : Bool
  pub now : ℕ
  pub exchange : Uri → Bytes → Option (List Bytes)
  pub updated : ℕ

module _ (client_version : Bytes) (read_json : Bytes → Option (Option (List (Bytes × ℤ)))) where
  -- The request of `updateRestrictions`.
  unfoldable pub outcome_of : Uri → (Uri → Bytes → Option (List Bytes)) → Outcome
  unfolding http_get
  outcome_of uri exchange = elim (http_get exchange client_version uri) [
    | none ↦ thrown
    | some response ↦ elim response.status_code [
      | negsuc code ↦ status code
      | pos code ↦
          if not (code == 200)
          then status code
          else elim (read_json response.body) [ none ↦ thrown | some success ↦ parsed success ]
    ]
  ]

  -- The loop of `poll`, with the time of the last update.
  unfoldable pub poll_loop : Uri → ℕ → List Turn → ℕ → Remote → Metrics → Remote × Metrics
  unfolding outcome_of update_restrictions close
  poll_loop uri interval [] last_update r m = (r, m)
  poll_loop uri interval (turn ∷ turns) last_update r m =
      let r1 = if turn.closed then (close r).0 else r in
      let due = leb (last_update + interval) turn.now in
      let (r2, m2) =
        if due then update_restrictions (outcome_of uri turn.exchange) r1 m else (r1, m) in
      let after = poll_loop uri interval turns (if due then turn.updated else last_update) r2 m2 in
      if not r1.running then (r1, m) else after

  -- `poll` of a new manager, with the server of its first request and the time behind it.
  unfoldable pub poll :
      IpAddress
      → Bytes
      → Bool
      → ℕ
      → (Uri → Bytes → Option (List Bytes))
      → ℕ
      → List Turn
      → Metrics
      → Remote × Metrics
  unfolding remote_uri outcome_of update_restrictions poll_loop refresh_interval
  poll address service_name deny interval exchange updated turns m =
      let uri = remote_uri address service_name in
      let (r1, m1) = update_restrictions (outcome_of uri exchange) (start deny) m in
      poll_loop uri (refresh_interval interval) turns updated r1 m1
