-- ===== src/Config/Tests.antt =====
-- Runs of the theorems on the configuration, with whole numbers for the doubles.
use jaeger_client_cpp.Base.{
  ℕ, ◌≡◌, refl, Bool, true, false, Option, none, some, List, [], ◌∷◌, map, Bytes, codes, bytes_eq,
  if◌then◌else◌, pos, leb, ltb, ◌==◌, ◌+◌, ◌-◌, ◌*◌, negsuc,
}
use jaeger_client_cpp.Uri.Parts.RoundTrip.{lacks-Lacks}
use jaeger_client_cpp.Samplers.{Arithmetic}
use jaeger_client_cpp.Config.{
  get_line, line_until, read_tag, read_tags, default_config, from_env, parse,
}
use jaeger_client_cpp.Config.Sources.{Environment, Yaml, defined_map}
use jaeger_client_cpp.Config.Sampler.{SamplerConfig}
use jaeger_client_cpp.Config.Tags.{is_mark, tags_text, tag_of, read_tags-tags_text}
use jaeger_client_cpp.Config.Usable.{IsUsable, from_env-parse}

abbrev numbers : Arithmetic ℕ
numbers = record {
  zero_value = 0;
  one_value = 1;
  add = λ x y. x + y;
  sub = λ x y. x - y;
  mul = λ x y. x * y;
  lt = ltb;
  le = leb;
  eq = λ x y. x == y;
  of_int = λ z. elim z [ pos n ↦ n | negsuc n ↦ 1000 ];
  seconds = λ z. elim z [ pos n ↦ n | negsuc n ↦ 0 ];
  scaled = λ x. (x, false);
  bits = λ x. x;
}

abbrev two_tags : List (Bytes × Bytes)
two_tags = (codes "zone", codes "eu") ∷ (codes "team", []) ∷ []

read_tags-tags_text_example : read_tags [] (tags_text two_tags) ≡ map tag_of two_tags
read_tags-tags_text_example = read_tags-tags_text two_tags (
  (lacks-Lacks is_mark (codes "zone") refl, lacks-Lacks is_mark (codes "eu") refl),
  ((lacks-Lacks is_mark (codes "team") refl, tt), tt),
)

-- A value behind which a second `=` ends the piece is lost.
lost_value : read_tag (codes "k=v=") ≡ tag_of (codes "k", []) ∷ []
unfolding read_tag get_line line_until
lost_value = refl

-- A document that is a map with a type for the sampler, and any other node is its text.
data Node : Type 0 where
  root_node sampler_node type_node : Node

find_node : Node → Bytes → Option Node
find_node root_node k = if bytes_eq k (codes "sampler") then some sampler_node else none
find_node sampler_node k = if bytes_eq k (codes "type") then some type_node else none
find_node type_node k = none

is_map_node : Node → Bool
is_map_node root_node = true
is_map_node sampler_node = true
is_map_node type_node = false

abbrev document : Yaml Node
document = record {
  is_map = is_map_node;
  find = find_node;
  as_string = λ n. some (codes "Const");
  as_bool = λ n. none;
  as_int = λ n. none;
  as_pairs = λ n. [];
}

abbrev environment : Environment
environment =
    λ name. if bytes_eq name (codes "JAEGER_AGENT_HOST") then some (codes "agent") else none

no_double : Node → Option ℕ
no_double n = none

no_scan : Bytes → Option ℕ
no_scan text = none

from_env-parse_example :
    IsUsable numbers 1 (from_env numbers 1 no_scan environment (default_config numbers 1))
from_env-parse_example =
    from_env-parse numbers 1 document no_double none no_scan environment (default_config numbers 1)
      (unfold parse in unfold defined_map in refl)

abbrev too_probable : SamplerConfig ℕ
too_probable = record {
  type_name = codes "Remote";
  param = 2;
  sampling_server_url = codes "http://127.0.0.1:5778/sampling";
  max_operations = pos 2000;
  sampling_refresh_interval = pos 60000000000;
}
