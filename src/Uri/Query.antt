-- ===== src/Uri/Query.antt =====
-- `parseQueryValues` against a description that splits the query.
use jaeger_client_cpp.Base.{
  ◌≡◌, ◌≢◌, refl, sym, ap, ◌∙◌, inl, inr, false, ◌&&◌, List, [], ◌∷◌, ◌++◌, append_assoc,
  append-nil, arith, Bytes, ◌==◌, Bool-cases, All, All-append, is_empty, if◌then◌else◌,
}
use jaeger_client_cpp.Uri.{
  query_unescape, unescape_loop, query_pair, query_loop, parse_query_values, key, value,
}

-- Text in front of the first part.
unfoldable pub glue : Bytes → List Bytes → List Bytes
glue p [] = p ∷ []
glue p (q ∷ qs) = (p ++ q) ∷ qs

-- The parts between the `&`s; there is always one.
unfoldable pub parts : Bytes → List Bytes
parts [] = [] ∷ []
parts (c ∷ s) = if c == b'&' then [] ∷ parts s else glue (c ∷ []) (parts s)

-- A part's key ends at its first `=`, and its value is what follows that.
unfoldable pub key_of : Bytes → Bytes
key_of [] = []
key_of (c ∷ s) = if c == b'=' then [] else c ∷ key_of s

unfoldable pub value_of : Bytes → Bytes
value_of [] = []
value_of (c ∷ s) = if c == b'=' then s else value_of s

-- Every part gives a pair, except a last one without a key.
unfoldable pub pairs : List Bytes → List (Bytes × Bytes)
pairs [] = []
pairs (p ∷ ps) =
    if is_empty ps && is_empty (key_of p)
    then []
    else (query_unescape (key_of p), query_unescape (value_of p)) ∷ pairs ps

abbrev IsKey : Bytes → Type 0
IsKey = All (λ c. c ≢ b'=')

key_of-key : (k : Bytes) → IsKey k → key_of k ≡ k
unfolding key_of
key_of-key [] h = refl
key_of-key (c ∷ k) (hc, hk) = ground (arith, key_of-key k hk)

value_of-key : (k : Bytes) → IsKey k → value_of k ≡ []
unfolding value_of
value_of-key [] h = refl
value_of-key (c ∷ k) (hc, hk) = ground (arith, value_of-key k hk)

key_of-pair : (k v : Bytes) → IsKey k → key_of (k ++ b'=' ∷ v) ≡ k
unfolding key_of
key_of-pair [] v h = refl
key_of-pair (c ∷ k) v (hc, hk) = ground (arith, key_of-pair k v hk)

value_of-pair : (k v : Bytes) → IsKey k → value_of (k ++ b'=' ∷ v) ≡ v
unfolding value_of
value_of-pair [] v h = refl
value_of-pair (c ∷ k) v (hc, hk) = ground (arith, value_of-pair k v hk)

glue-glue : (p q : Bytes) (ps : List Bytes) → glue p (glue q ps) ≡ glue (p ++ q) ps
unfolding glue
glue-glue p q [] = refl
glue-glue p q (r ∷ ps) = ap (λ t. t ∷ ps) (sym (append_assoc p q r))

is_empty-glue : (p : Bytes) (ps : List Bytes) → is_empty (glue p ps) ≡ false
unfolding glue
is_empty-glue p [] = refl
is_empty-glue p (q ∷ qs) = refl

is_empty-parts : (s : Bytes) → is_empty (parts s) ≡ false
unfolding parts
is_empty-parts [] = refl
is_empty-parts (c ∷ s) = ground (arith, is_empty-glue (c ∷ []) (parts s))

glue-nil : (s : Bytes) → glue [] (parts s) ≡ parts s
glue-nil s = pick (parts s) (is_empty-parts s)
  where
    pick : (ps : List Bytes) → is_empty ps ≡ false → glue [] ps ≡ ps
    pick [] h = cc
    pick (p ∷ ps) h = unfold glue in refl

-- The loop's two states: the key read so far, and the whole pair read so far.
query_unescape-nil : query_unescape [] ≡ []
unfolding query_unescape unescape_loop
query_unescape-nil = refl

end_key : (k v : Bytes) → IsKey k → query_loop key k v [] ≡ pairs (glue k (parts []))
unfolding query_loop query_pair pairs glue parts
end_key k v h = rw (append-nil k, key_of-key k h, value_of-key k h, query_unescape-nil)

end_value :
    (k v : Bytes) → IsKey k → query_loop value k v [] ≡ pairs (glue (k ++ b'=' ∷ v) (parts []))
unfolding query_loop query_pair pairs glue parts
end_value k v h = rw (append-nil (k ++ b'=' ∷ v), key_of-pair k v h, value_of-pair k v h)

pairs-more :
    (p : Bytes) (s : Bytes)
    → pairs (p ∷ parts s)
      ≡ (query_unescape (key_of p), query_unescape (value_of p)) ∷ pairs (parts s)
unfolding pairs
pairs-more p s = rw (is_empty-parts s)

-- A `&` ends a part.
amp_key :
    (k v s : Bytes)
    → IsKey k
    → query_pair key k v ∷ pairs (glue [] (parts s)) ≡ pairs (glue k ([] ∷ parts s))
unfolding query_pair glue
amp_key k v s h =
    rw (
      append-nil k,
      pairs-more k s,
      key_of-key k h,
      value_of-key k h,
      query_unescape-nil,
      glue-nil s,
    )

amp_value :
    (k v s : Bytes)
    → IsKey k
    → query_pair value k v ∷ pairs (glue [] (parts s)) ≡ pairs (glue (k ++ b'=' ∷ v) ([] ∷ parts s))
unfolding query_pair glue
amp_value k v s h = rw (
  append-nil (k ++ b'=' ∷ v),
  pairs-more (k ++ b'=' ∷ v) s,
  key_of-pair k v h,
  value_of-pair k v h,
  glue-nil s,
)

mutual
  unfolding query_loop parts

  query_loop-key : (k v s : Bytes) → IsKey k → query_loop key k v s ≡ pairs (glue k (parts s))
  query_loop-key k v [] h = end_key k v h
  query_loop-key k v (c ∷ s) h = elim (Bool-cases (c == b'=')) [
    | inl e ↦ ground (arith, query_loop-value k [] s h, glue-glue k (c ∷ []) (parts s))
    | inr e ↦ ground (
      arith,
      amp_key k v s h,
      query_loop-key [] v s tt,
      query_loop-key (k ++ c ∷ []) v s (All-append (λ x. x ≢ b'=') k _ h (ground arith, tt)),
      glue-glue k (c ∷ []) (parts s),
    )
  ]

  query_loop-value :
      (k v s : Bytes) → IsKey k → query_loop value k v s ≡ pairs (glue (k ++ b'=' ∷ v) (parts s))
  query_loop-value k v [] h = end_value k v h
  query_loop-value k v (c ∷ s) h = ground (
    arith,
    amp_value k v s h,
    query_loop-key [] v s tt,
    query_loop-value k (v ++ c ∷ []) s h,
    glue-glue (k ++ b'=' ∷ v) (c ∷ []) (parts s),
    append_assoc k (b'=' ∷ v) (c ∷ []),
  )

-- `parseQueryValues` inserts one pair for each part of the query, in order, split at the first `=`
-- and unescaped; only a last part without a key inserts nothing.
pub parse_query_values-pairs : (s : Bytes) → parse_query_values s ≡ pairs (parts s)
unfolding parse_query_values
parse_query_values-pairs [] = unfold pairs parts key_of in refl
parse_query_values-pairs (c ∷ s) = query_loop-key [] [] (c ∷ s) tt ∙ ap pairs (glue-nil (c ∷ s))
