-- ===== src/Json/Tests.antt =====
-- A run of the theorem on JSON, with a small document type for the library's values.
use jaeger_client_cpp.Base.{
  ℕ, ◌≡◌, refl, false, Option, none, some, List, [], ◌∷◌, Bytes, codes, bytes_eq, bytes_eq_self,
  if◌then◌else◌, ℤ, pos, to_signed, to_unsigned,
}
use jaeger_client_cpp.Samplers.Remote.{probabilistic, StrategyResponse}
use jaeger_client_cpp.Json.{Json, IsJson, response_to_json, response_from_json}
use jaeger_client_cpp.Json.RoundTrip.{response_from_json-response_to_json}

data Document : Type 0 where
  null_document : Document
  string_document : Bytes → Document
  number : ℕ → Document
  whole : ℤ → Document
  end : Document
  item : Document → Document → Document
  entry : Bytes → Document → Document → Document

value_at : Document → Bytes → Option Document
value_at (entry k v rest) k' =
    let later = value_at rest k' in if bytes_eq k k' then some v else later
value_at null_document k' = none
value_at (string_document s) k' = none
value_at (number n) k' = none
value_at (whole z) k' = none
value_at end k' = none
value_at (item x xs) k' = none

string_of : Document → Option Bytes
string_of (string_document s) = some s
string_of _ = none

number_of : Document → Option ℕ
number_of (number n) = some n
number_of _ = none

whole_of : Document → Option ℤ
whole_of (whole z) = some z
whole_of _ = none

items : List Document → Document
items [] = end
items (x ∷ xs) = item x (items xs)

list_step : Document → Option (List Document) → Option (List Document)
list_step x none = none
list_step x (some xs) = some (x ∷ xs)

list_of : Document → Option (List Document)
unfolding list_step
list_of end = some []
list_of (item x xs) = list_step x (list_of xs)
list_of null_document = none
list_of (string_document s) = none
list_of (number n) = none
list_of (whole z) = none
list_of (entry k v rest) = none

abbrev documents : Json ℕ Document
documents = record {
  at_key = value_at;
  find = value_at;
  set_key = λ k v o. entry k v o;
  nothing = null_document;
  of_string = λ s. string_document s;
  as_string = string_of;
  of_double = λ d. number d;
  as_double = number_of;
  of_int = λ z. whole z;
  as_int16 = whole_of;
  as_int32 = whole_of;
  of_list = items;
  as_list = list_of;
}

list_of-items : (l : List Document) → list_of (items l) ≡ some l
unfolding list_of items list_step
list_of-items [] = refl
list_of-items (x ∷ xs) = rw (list_of-items xs, list_step) refl

value_at-same : (k : Bytes) (v o : Document) → value_at (entry k v o) k ≡ some v
unfolding value_at
value_at-same k v o = rw (bytes_eq_self k, value_at) refl

value_at-other :
    (k k' : Bytes) (v o : Document)
    → bytes_eq k k' ≡ false
    → value_at (entry k v o) k' ≡ value_at o k'
unfolding value_at
value_at-other k k' v o n = rw (n, value_at) refl

documents-IsJson : IsJson documents
unfolding value_at string_of number_of whole_of
documents-IsJson = record {
  at_same = value_at-same;
  at_other = value_at-other;
  find_same = value_at-same;
  find_other = value_at-other;
  find_nothing = λ k. refl;
  string_back = λ s. refl;
  double_back = λ d. refl;
  int16_back = λ z i. refl;
  int32_back = λ z i. refl;
  list_back = list_of-items;
}

abbrev response : StrategyResponse ℕ
response = record {
  strategy_type = probabilistic;
  probabilistic_sampling = some 1;
  rate_limiting_sampling = some (pos 9);
  operation_sampling = some (record {
    default_sampling_probability = 0;
    default_lower_bound = 1;
    default_upper_bound = none;
    per_operation = (codes "get", 1) ∷ [];
  });
}

response_from_json-response_to_json_example :
    response_from_json documents (response_to_json documents response) ≡ some response
response_from_json-response_to_json_example =
    response_from_json-response_to_json documents documents-IsJson response
      (unfold to_signed in unfold to_unsigned in refl)
