-- ===== src/Config/Tags.antt =====
-- The tags of the variable `JAEGER_TAGS`.
use jaeger_client_cpp.Base.{
  ℕ, ◌≡◌, refl, sym, ap, ◌∙◌, Bool, true, false, not, ◌||◌, none, some, List, [], ◌∷◌, ◌++◌, map,
  append-nil, append_assoc, Bytes, ◌==◌, if◌then◌else◌, is_empty, arith, All, All-map, All-append,
}
use jaeger_client_cpp.Tag.{Tag, text}
use jaeger_client_cpp.Uri.Parts.RoundTrip.{Lacks}
use jaeger_client_cpp.Config.{line_until, get_line, read_tag, read_tags}

abbrev pub is_mark : ℕ → Bool
is_mark ch = ch == b'=' || ch == b','

-- A key or a value without `=` and `,`.
abbrev pub IsPair : Bytes × Bytes → Type 0
IsPair (tag_key, tag_value) = Lacks is_mark tag_key × Lacks is_mark tag_value

-- What one writes in the variable.
abbrev pub pair_text : Bytes × Bytes → Bytes
pair_text (tag_key, tag_value) = tag_key ++ b'=' ∷ tag_value

pub tags_text : List (Bytes × Bytes) → Bytes
tags_text [] = []
tags_text (pair ∷ []) = pair_text pair
tags_text (pair ∷ next ∷ pairs) = pair_text pair ++ b',' ∷ tags_text (next ∷ pairs)

abbrev pub tag_of : Bytes × Bytes → Tag
tag_of (tag_key, tag_value) = record { key = tag_key; value = text tag_value }

line_until-found :
    (line front rest : Bytes)
    → Lacks is_mark front
    → line_until b'=' line (front ++ b'=' ∷ rest) ≡ (true, line ++ front, some rest)
unfolding line_until
line_until-found line [] rest h = ap (λ t. (true, t, some rest)) (sym (append-nil line))
line_until-found line (ch ∷ front) rest (n, h) =
    let other : ch == b'=' ≡ false = ground (arith, n) in
    rw (other, line_until)
      (line_until-found (line ++ ch ∷ []) front rest h
        ∙ ap (λ t. (true, t, some rest)) (append_assoc line (ch ∷ []) front))

line_until-end :
    (line front : Bytes)
    → Lacks is_mark front
    → line_until b'=' line front ≡ (not (is_empty (line ++ front)), line ++ front, none)
unfolding line_until
line_until-end line [] h = ap (λ (t : Bytes). (not (is_empty t), t, none)) (sym (append-nil line))
line_until-end line (ch ∷ front) (n, h) =
    let other : ch == b'=' ≡ false = ground (arith, n) in
    rw (other, line_until)
      (line_until-end (line ++ ch ∷ []) front h
        ∙ ap (λ (t : Bytes). (not (is_empty t), t, none)) (append_assoc line (ch ∷ []) front))

read_tag-pair_text :
    (pair : Bytes × Bytes) → IsPair pair → read_tag (pair_text pair) ≡ tag_of pair ∷ []
unfolding read_tag get_line
read_tag-pair_text (tag_key, tag_value) (k, v) =
    rw (line_until-found [] tag_key tag_value k, line_until-end [] tag_value v, read_tag, get_line)
      refl

abbrev is_comma : ℕ → Bool
is_comma ch = ch == b','

read_tags-comma :
    (piece front rest : Bytes)
    → Lacks is_comma front
    → read_tags piece (front ++ b',' ∷ rest) ≡ read_tag (piece ++ front) ++ read_tags [] rest
unfolding read_tags
read_tags-comma piece [] rest h = ap (λ t. read_tag t ++ read_tags [] rest) (sym (append-nil piece))
read_tags-comma piece (ch ∷ front) rest (n, h) =
    rw (n, read_tags)
      (read_tags-comma (piece ++ ch ∷ []) front rest h
        ∙ ap (λ t. read_tag t ++ read_tags [] rest) (append_assoc piece (ch ∷ []) front))

read_tags-last :
    (piece front : Bytes)
    → Lacks is_comma front
    → read_tags piece front ≡ (if is_empty (piece ++ front) then [] else read_tag (piece ++ front))
unfolding read_tags
read_tags-last piece [] h = ap (λ t. if is_empty t then [] else read_tag t) (sym (append-nil piece))
read_tags-last piece (ch ∷ front) (n, h) =
    rw (n, read_tags)
      (read_tags-last (piece ++ ch ∷ []) front h
        ∙ ap (λ t. if is_empty t then [] else read_tag t) (append_assoc piece (ch ∷ []) front))

pair_text-Lacks : (pair : Bytes × Bytes) → IsPair pair → Lacks is_comma (pair_text pair)
pair_text-Lacks (tag_key, tag_value) (k, v) =
    All-append _ tag_key (b'=' ∷ tag_value) (All-map _ _ tag_key (λ ch n. ground (arith, n)) k)
      (refl, All-map _ _ tag_value (λ ch n. ground (arith, n)) v)

pair_text-filled : (pair : Bytes × Bytes) → is_empty (pair_text pair) ≡ false
pair_text-filled ([], tag_value) = refl
pair_text-filled (ch ∷ tag_key, tag_value) = refl

-- The tags that `JAEGER_TAGS` lists as `key=value`, with commas between them, are read in their order, if
-- no key and no value has a `=` or a comma; an empty key or value is kept.
pub read_tags-tags_text :
    (pairs : List (Bytes × Bytes))
    → All IsPair pairs
    → read_tags [] (tags_text pairs) ≡ map tag_of pairs
unfolding tags_text
read_tags-tags_text [] h = unfold read_tags in refl
read_tags-tags_text (pair ∷ []) (p, h) =
    read_tags-last [] (pair_text pair) (pair_text-Lacks pair p)
    ∙ rw (pair_text-filled pair) (read_tag-pair_text pair p)
read_tags-tags_text (pair ∷ next ∷ pairs) (p, h) =
    read_tags-comma [] (pair_text pair) (tags_text (next ∷ pairs)) (pair_text-Lacks pair p)
    ∙ ap (λ t. t ++ read_tags [] (tags_text (next ∷ pairs))) (read_tag-pair_text pair p)
    ∙ ap (λ t. tag_of pair ∷ t) (read_tags-tags_text (next ∷ pairs) h)
