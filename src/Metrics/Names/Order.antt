-- ===== src/Metrics/Names/Order.antt =====
-- The name of a metric does not depend on the order in which the tags are listed.
use jaeger_client_cpp.Base.{
  ◌≡◌, ◌≢◌, refl, sym, ap, ap₂, ◌∙◌, subst, inl, inr, true, false, false≢true, Option, none, some,
  some-injective, [], ◌∷◌, ◌++◌, Bytes, bytes_eq_iff, lookup, All, All-map, arith, Bool-cases,
}
use jaeger_client_cpp.Metrics.Names.{
  TagMap, bytes_lt, insert_ordered, order_tags, write_tags, add_tags_to_metric_name,
}

bytes_lt-irreflexive : (s : Bytes) → bytes_lt s s ≡ false
unfolding bytes_lt
bytes_lt-irreflexive [] = refl
bytes_lt-irreflexive (c ∷ s) = ground (arith, bytes_lt-irreflexive s)

bytes_lt-transitive :
    (s t u : Bytes) → bytes_lt s t ≡ true → bytes_lt t u ≡ true → bytes_lt s u ≡ true
unfolding bytes_lt
bytes_lt-transitive [] [] u h k = absurd (false≢true h)
bytes_lt-transitive [] (d ∷ t) [] h k = absurd (false≢true k)
bytes_lt-transitive [] (d ∷ t) (e ∷ u) h k = refl
bytes_lt-transitive (c ∷ s) [] u h k = absurd (false≢true h)
bytes_lt-transitive (c ∷ s) (d ∷ t) [] h k = absurd (false≢true k)
bytes_lt-transitive (c ∷ s) (d ∷ t) (e ∷ u) h k = ground (arith, bytes_lt-transitive s t u, h, k)

bytes_lt-total : (s t : Bytes) → bytes_lt s t ≡ false → bytes_lt t s ≡ false → s ≡ t
unfolding bytes_lt
bytes_lt-total [] [] h k = refl
bytes_lt-total [] (d ∷ t) h k = absurd (false≢true (sym h))
bytes_lt-total (c ∷ s) [] h k = absurd (false≢true (sym k))
bytes_lt-total (c ∷ s) (d ∷ t) h k = ground (arith, bytes_lt-total s t, h, k)

-- Entries behind a key.
abbrev Behind : Bytes → TagMap → Type 0
Behind k = All (λ e. bytes_lt k e.0 ≡ true)

abbrev IsOrdered : TagMap → Type 0
IsOrdered [] = Unit {0}
IsOrdered ((k, v) ∷ m) = Behind k m × IsOrdered m

lookup-Behind : (k : Bytes) (m : TagMap) → Behind k m → lookup k m ≡ none
unfolding lookup
lookup-Behind k [] h = refl
lookup-Behind k ((j, w) ∷ m) (hj, hm) =
    ground (arith, hj, bytes_eq_iff j k, bytes_lt-irreflexive k, lookup-Behind k m hm)

Behind-transitive : (k j : Bytes) (m : TagMap) → bytes_lt k j ≡ true → Behind j m → Behind k m
Behind-transitive k j m h = All-map _ _ m (λ e b. bytes_lt-transitive k j e.0 h b)

insert_ordered-Behind :
    (j k v : Bytes) (m : TagMap)
    → bytes_lt j k ≡ true
    → Behind j m
    → Behind j (insert_ordered k v m)
unfolding insert_ordered
insert_ordered-Behind j k v [] h b = (h, tt)
insert_ordered-Behind j k v ((i, w) ∷ m) h (hi, hm) = elim (Bool-cases (bytes_lt k i)) [
  | inl e ↦ rw e (h, (hi, hm))
  | inr e ↦ elim (Bool-cases (bytes_lt i k)) [
    | inl f ↦ rw (e, f) (hi, insert_ordered-Behind j k v m h hm)
    | inr f ↦ rw (e, f) (hi, hm)
  ]
]

insert_ordered-IsOrdered :
    (k v : Bytes) (m : TagMap) → IsOrdered m → IsOrdered (insert_ordered k v m)
unfolding insert_ordered
insert_ordered-IsOrdered k v [] h = (tt, tt)
insert_ordered-IsOrdered k v ((j, w) ∷ m) (b, h) = elim (Bool-cases (bytes_lt k j)) [
  | inl e ↦ rw e ((e, Behind-transitive k j m e b), (b, h))
  | inr e ↦ elim (Bool-cases (bytes_lt j k)) [
    | inl f ↦ rw (e, f) (insert_ordered-Behind j k v m f b, insert_ordered-IsOrdered k v m h)
    | inr f ↦ rw (e, f) (b, h)
  ]
]

-- What is found first, in one map or in another.
first : Option Bytes → Option Bytes → Option Bytes
first none found = found
first (some v) found = some v

lookup-insert_ordered :
    (i k v : Bytes) (m : TagMap)
    → IsOrdered m
    → lookup i (insert_ordered k v m) ≡ first (lookup i m) (lookup i ((k, v) ∷ []))
unfolding insert_ordered lookup first
lookup-insert_ordered i k v [] h = refl
lookup-insert_ordered i k v ((j, w) ∷ m) (b, h) = elim (Bool-cases (bytes_lt k j)) [
  | inl e ↦ ground (
    arith,
    e,
    bytes_eq_iff k i,
    bytes_eq_iff j i,
    bytes_lt-irreflexive k,
    lookup-Behind k m (Behind-transitive k j m e b),
  )
  | inr e ↦ elim (Bool-cases (bytes_lt j k)) [
    | inl f ↦ ground (arith, e, f, lookup-insert_ordered i k v m h)
    | inr f ↦ ground (arith, e, f, bytes_eq_iff k i, bytes_eq_iff j i, bytes_lt-total k j e f)
  ]
]

order_tags-IsOrdered : (tags m : TagMap) → IsOrdered m → IsOrdered (order_tags tags m)
unfolding order_tags
order_tags-IsOrdered [] m h = h
order_tags-IsOrdered ((k, v) ∷ tags) m h =
    order_tags-IsOrdered tags (insert_ordered k v m) (insert_ordered-IsOrdered k v m h)

first_assoc : (a b c : Option Bytes) → first (first a b) c ≡ first a (first b c)
unfolding first
first_assoc none b c = refl
first_assoc (some v) b c = refl

lookup-first :
    (i k v : Bytes) (tags : TagMap)
    → first (lookup i ((k, v) ∷ [])) (lookup i tags) ≡ lookup i ((k, v) ∷ tags)
unfolding lookup first
lookup-first i k v tags = ground arith

lookup-order_tags :
    (i : Bytes) (tags m : TagMap)
    → IsOrdered m
    → lookup i (order_tags tags m) ≡ first (lookup i m) (lookup i tags)
unfolding order_tags
lookup-order_tags i [] m h = unfold lookup first in ground arith
lookup-order_tags i ((k, v) ∷ tags) m h =
    lookup-order_tags i tags (insert_ordered k v m) (insert_ordered-IsOrdered k v m h)
    ∙ ap (λ t. first t (lookup i tags)) (lookup-insert_ordered i k v m h)
    ∙ first_assoc (lookup i m) _ _
    ∙ ap (first (lookup i m)) (lookup-first i k v tags)

none≢some : {v : Bytes} → none ≢ some v
none≢some e = ground (arith, e)

lookup-nil : (k : Bytes) → lookup {V = Bytes} k [] ≡ none
unfolding lookup
lookup-nil k = refl

lookup-head : (k v : Bytes) (m : TagMap) → lookup k ((k, v) ∷ m) ≡ some v
unfolding lookup
lookup-head k v m = ground (arith, bytes_eq_iff k k)

-- A key in front of a map is not in it.
not_ahead :
    (k v j w : Bytes) (m n : TagMap)
    → IsOrdered ((j, w) ∷ n)
    → lookup k ((k, v) ∷ m) ≡ lookup k ((j, w) ∷ n)
    → bytes_lt k j ≡ false
not_ahead k v j w m n (b, h) same = elim (Bool-cases (bytes_lt k j)) [
  | inl e ↦ absurd (
      none≢some (
        sym (lookup-Behind k ((j, w) ∷ n) (e, Behind-transitive k j n e b))
        ∙ sym same
        ∙ lookup-head k v m))
  | inr e ↦ e
]

-- What maps with the same head find behind it.
lookup-tail :
    (i k v : Bytes) (m n : TagMap)
    → Behind k m
    → Behind k n
    → lookup i ((k, v) ∷ m) ≡ lookup i ((k, v) ∷ n)
    → lookup i m ≡ lookup i n
unfolding lookup
lookup-tail i k v m n bm bn same =
    ground (arith, same, bytes_eq_iff k i, lookup-Behind k m bm, lookup-Behind k n bn)

IsOrdered-unique :
    (m n : TagMap) → IsOrdered m → IsOrdered n → ((i : Bytes) → lookup i m ≡ lookup i n) → m ≡ n
IsOrdered-unique [] [] hm hn same = refl
IsOrdered-unique [] ((j, w) ∷ n) hm hn same =
    absurd (none≢some (sym (lookup-nil j) ∙ same j ∙ lookup-head j w n))
IsOrdered-unique ((k, v) ∷ m) [] hm hn same =
    absurd (none≢some (sym (lookup-nil k) ∙ sym (same k) ∙ lookup-head k v m))
IsOrdered-unique ((k, v) ∷ m) ((j, w) ∷ n) hm hn same =
    let key : k ≡ j =
      bytes_lt-total k j (not_ahead k v j w m n hn (same k))
        (not_ahead j w k v n m hm (sym (same j))) in
    let value : v ≡ w = some-injective v w (
      sym (lookup-head k v m) ∙ same k ∙ ap (λ i. lookup i ((j, w) ∷ n)) key ∙ lookup-head j w n) in
    let hn' : IsOrdered ((k, v) ∷ n) =
      subst (λ (e : Bytes × Bytes). IsOrdered (e ∷ n)) (sym (ap₂ (λ s t. (s, t)) key value)) hn in
    let same' : (i : Bytes) → lookup i ((k, v) ∷ m) ≡ lookup i ((k, v) ∷ n) = λ i.
      same i ∙ ap (λ (e : Bytes × Bytes). lookup i (e ∷ n)) (sym (ap₂ (λ s t. (s, t)) key value)) in
    ap₂ (λ e t. e ∷ t) (ap₂ (λ s t. (s, t)) key value)
      (IsOrdered-unique m n hm.1 hn'.1 (λ i. lookup-tail i k v m n hm.0 hn'.0 (same' i)))

-- The name of a metric is the same for two listings of one map of tags: the order in which the
-- `std::unordered_map` lists its entries does not show.
pub add_tags-same_map :
    (name : Bytes) (tags others : TagMap)
    → ((key : Bytes) → lookup key tags ≡ lookup key others)
    → add_tags_to_metric_name name tags ≡ add_tags_to_metric_name name others
unfolding add_tags_to_metric_name
add_tags-same_map name tags others same =
    ap (λ m. name ++ write_tags m)
      (IsOrdered-unique (order_tags tags []) (order_tags others [])
        (order_tags-IsOrdered tags [] tt) (order_tags-IsOrdered others [] tt)
        (λ i.
          lookup-order_tags i tags [] tt
          ∙ ap (first (lookup i [])) (same i)
          ∙ sym (lookup-order_tags i others [] tt)))
