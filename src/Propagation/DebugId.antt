-- ===== src/Propagation/DebugId.antt =====
-- The debug header, for every format.
use jaeger_client_cpp.Base.{
  ℕ, ◌<◌, bit_or, ◌≡◌, ◌≢◌, refl, ◌∙◌, true, false, some, [], ◌∷◌, ◌++◌, arith, Bytes, All,
  bytes_eq, Bool-cases, inl, inr,
}
use jaeger_client_cpp.SpanContext.{SpanContext, is_sampled, is_debug}
use jaeger_client_cpp.SpanContext.Flags.{bit_or-both}
use jaeger_client_cpp.Propagation.Carrier.{
  HeadersConfig, Codec, Carrier, for_each_key, for_each_key_step, find_debug_id, combine, extract,
}

module _ (c : Codec) (hc : HeadersConfig) where
  abbrev pub IsDebugKey : Bytes → Type 0
  IsDebugKey key = bytes_eq (c.normalize_key key) hc.jaeger_debug_header ≡ true

  abbrev pub IsOtherKey : Bytes × Bytes → Type 0
  IsOtherKey item = bytes_eq (c.normalize_key item.0) hc.jaeger_debug_header ≡ false

  find-other :
      (key value d : Bytes) → IsOtherKey (key, value) → find_debug_id c hc key value d ≡ some d
  unfolding find_debug_id
  find-other key value d h = rw h

  find-debug : (key value d : Bytes) → IsDebugKey key → find_debug_id c hc key value d ≡ some value
  unfolding find_debug_id
  find-debug key value d h = rw h

  find-others :
      (reader : Carrier) (d : Bytes)
      → All IsOtherKey reader
      → for_each_key (find_debug_id c hc) reader d ≡ some d
  unfolding for_each_key
  find-others [] d h = refl
  find-others ((key, value) ∷ reader) d (h, hs) =
      for_each_key_step (find_debug_id c hc) key value reader d d (find-other key value d h)
      ∙ find-others reader d hs

  -- The last debug header decides.
  find-last :
      (before after : Carrier) (key value d : Bytes)
      → IsDebugKey key
      → All IsOtherKey after
      → for_each_key (find_debug_id c hc) (before ++ (key, value) ∷ after) d ≡ some value
  find-last [] after key value d h o =
      for_each_key_step (find_debug_id c hc) key value after d value (find-debug key value d h)
      ∙ find-others after value o
  find-last ((k, v) ∷ before) after key value d h o =
      elim (Bool-cases (bytes_eq (c.normalize_key k) hc.jaeger_debug_header)) [
        | inl e ↦
            for_each_key_step (find_debug_id c hc) k v _ d v (find-debug k v d e)
            ∙ find-last before after key value v h o
        | inr e ↦
            for_each_key_step (find_debug_id c hc) k v _ d d (find-other k v d e)
            ∙ find-last before after key value d h o
      ]

  combine-debug :
      (d : Bytes) (ctx : SpanContext)
      → d ≢ []
      → combine d ctx ≡ record ctx { flags = bit_or ctx.flags 3; debug_id = d }
  unfolding combine
  combine-debug [] ctx ne = absurd (ne refl)
  combine-debug (x ∷ d) ctx ne = ground arith

  -- For every format: a debug header whose value is not empty, with no other one behind it, makes
  -- the extracted context a sampled debug context with that ID. The rest of it is what the format
  -- found, whose flags are a byte, and the decoding errors of the format are passed on.
  pub extract-debug :
      (do_extract : Carrier → SpanContext × ℕ) (before after : Carrier) (key d : Bytes)
      → IsDebugKey key
      → All IsOtherKey after
      → d ≢ []
      → (do_extract (before ++ (key, d) ∷ after)).0.flags < 256
      → let reader = before ++ (key, d) ∷ after in
        let found = do_extract reader in
        let (ctx, errors) = extract c hc do_extract reader in
        (ctx ≡ record found.0 { flags = bit_or found.0.flags 3; debug_id = d })
        × (is_sampled ctx ≡ true)
        × (is_debug ctx ≡ true)
        × (errors ≡ found.1)
  unfolding extract is_sampled is_debug
  extract-debug do_extract before after key d h o ne fits =
      let reader = before ++ (key, d) ∷ after in
      let bits = bit_or-both (do_extract reader).0.flags fits in
      rw (find-last before after key d [] h o, combine-debug d (do_extract reader).0 ne)
        (refl, bits.0, bits.1, refl)
