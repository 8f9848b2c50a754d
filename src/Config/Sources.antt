-- ===== src/Config/Sources.antt =====
-- Where a configuration comes from: utils/EnvVariable.h, and `findOrDefault` of utils/YAML.h.
use jaeger_client_cpp.Base.{
  ℕ, zero, suc, ◌+◌, ◌-◌, ◌*◌, ◌≡◌, Bool, true, false, Option, none, some, List, [], Bytes, codes,
  bytes_eq, if◌then◌else◌, is_empty, map, ℤ, pos, negsuc,
}
use jaeger_client_cpp.Decimal.{scan_int}
use jaeger_client_cpp.Propagation.Carrier.{to_lower}

-- `std::getenv`
abbrev pub Environment : Type 0
Environment = Bytes → Option Bytes

-- `getStringVariable`
abbrev pub or_nothing : Option Bytes → Bytes
or_nothing none = []
or_nothing (some text) = text

unfoldable pub string_variable : Environment → Bytes → Bytes
string_variable env name = or_nothing (env name)

-- `getIntVariable`, whose first component is never true.
unfoldable pub int_variable : Environment → Bytes → Bool × ℤ
unfolding string_variable scan_int
int_variable env name =
    let variable = string_variable env name in
    let (good, value) = scan_int variable in
    if is_empty variable then (false, pos 0) else if good then (false, value) else (false, pos 0)

-- `std::transform` with `::tolower` of the C locale.
unfoldable pub lower_case : Bytes → Bytes
lower_case text = map to_lower text

-- `getBoolVariable`
unfoldable pub bool_variable : Environment → Bytes → Bool × Bool
unfolding string_variable lower_case
bool_variable env name =
    let variable = string_variable env name in
    if is_empty variable
    then (false, false)
    else (true, bytes_eq (lower_case variable) (codes "true"))

-- A `YAML::Node`, by what the code asks of it: whether it is a map, the node of a key if it is defined,
-- the conversions, which throw (`none`), and the pairs of a map.
pub record Yaml (N : Type 0) : Type 0 where
  pub is_map : N → Bool
  pub find : N → Bytes → Option N
  pub as_string : N → Option Bytes
  pub as_bool : N → Option Bool
  pub as_int : N → Option ℤ
  pub as_pairs : N → List (N × N)

unfoldable pub find_or_default : {N A : Type 0} → Yaml N → (N → Option A) → N → Bytes → A → Option A
find_or_default y as_value node key default = elim (y.find node key) [
  | none ↦ some default
  | some found ↦ as_value found
]

-- The map that a node is, if it is defined and a map.
unfoldable pub defined_map : {N : Type 0} → Yaml N → Option N → Option N
defined_map y none = none
defined_map y (some node) = if y.is_map node then some node else none

-- `std::chrono::seconds` and `std::chrono::milliseconds`, in nanoseconds.
unfoldable pub scaled : ℕ → ℤ → ℤ
scaled unit (pos n) = pos (n * unit)
scaled unit (negsuc n) = negsuc ((n + 1) * unit - 1)

abbrev pub is_positive : ℤ → Bool
is_positive (pos zero) = false
is_positive (pos (suc n)) = true
is_positive (negsuc n) = false

abbrev pub IsPositive : ℤ → Type 0
IsPositive z = is_positive z ≡ true
