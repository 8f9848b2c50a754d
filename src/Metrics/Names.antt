-- ===== src/Metrics/Names.antt =====
-- `Metrics::addTagsToMetricName` of metrics/Metrics.cpp, with the `std::map` that orders the tags.
pub mod Order
use jaeger_client_cpp.Base.{
  ℕ, ◌≡◌, Bool, true, false, List, [], ◌∷◌, ◌++◌, Bytes, ltb, ◌==◌, if◌then◌else◌,
}

abbrev pub TagMap : Type 0
TagMap = List (Bytes × Bytes)

-- `<` on strings.
unfoldable pub bytes_lt : Bytes → Bytes → Bool
bytes_lt [] [] = false
bytes_lt [] (d ∷ t) = true
bytes_lt (c ∷ s) [] = false
bytes_lt (c ∷ s) (d ∷ t) = if ltb c d then true else if c == d then bytes_lt s t else false

-- Insertion into a `std::map`, where a key that is there already keeps its value.
unfoldable pub insert_ordered : Bytes → Bytes → TagMap → TagMap
unfolding bytes_lt
insert_ordered k v [] = (k, v) ∷ []
insert_ordered k v ((j, w) ∷ m) =
    if bytes_lt k j
    then (k, v) ∷ (j, w) ∷ m
    else if bytes_lt j k
    then (j, w) ∷ insert_ordered k v m
    else (j, w) ∷ m

unfoldable pub order_tags : TagMap → TagMap → TagMap
unfolding insert_ordered
order_tags [] m = m
order_tags ((k, v) ∷ tags) m = order_tags tags (insert_ordered k v m)

unfoldable pub write_tags : TagMap → Bytes
write_tags [] = []
write_tags ((k, v) ∷ m) = b'.' ∷ (k ++ b'=' ∷ (v ++ write_tags m))

-- The tags in the order in which the `std::unordered_map` lists them.
unfoldable pub add_tags_to_metric_name : Bytes → TagMap → Bytes
unfolding order_tags write_tags
add_tags_to_metric_name name tags = name ++ write_tags (order_tags tags [])
