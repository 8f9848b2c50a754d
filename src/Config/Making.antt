-- ===== src/Config/Making.antt =====
-- When a configuration makes a sampler, and the address of the agent.
use jaeger_client_cpp.Base.{
  ℕ, ◌<◌, ◌^◌, ◌≡◌, refl, sym, ap, ◌∙◌, subst, Bool, true, false, false≢true, not, ◌&&◌, ◌||◌, [],
  ◌∷◌, ◌++◌, append-nil, Bytes, codes, bytes_eq, bytes_eq_iff, is_empty, ℤ, pos, arith, Bool-cases,
  inl, inr,
}
use jaeger_client_cpp.Decimal.{print_int, scan_int}
use jaeger_client_cpp.Decimal.RoundTrip.{scan_int-print_int}
use jaeger_client_cpp.Uri.Parts.{is_colon}
use jaeger_client_cpp.Uri.Parts.RoundTrip.{Lacks, span-append}
use jaeger_client_cpp.Samplers.{Arithmetic, new_probabilistic}
use jaeger_client_cpp.Samplers.Remote.{Remote, Manager, probabilistic_sampler}
use jaeger_client_cpp.Config.Sources.{lower_case}
use jaeger_client_cpp.Config.Reporter.{
  ReporterConfig, parse_address, host_and_port, set_agent_host, set_agent_port,
}
use jaeger_client_cpp.Config.Sampler.{
  SamplerConfig, MadeSampler, made, made_remote, no_sampler, invalid_argument, in_unit,
  make_probabilistic, make_remote, make_by_type, make_sampler,
}

abbrev pub is_invalid : {D : Type 0} → MadeSampler D → Bool
is_invalid (made sampler) = false
is_invalid (made_remote r manager interval) = false
is_invalid no_sampler = false
is_invalid invalid_argument = true

abbrev pub is_missing : {D : Type 0} → MadeSampler D → Bool
is_missing (made sampler) = false
is_missing (made_remote r manager interval) = false
is_missing no_sampler = true
is_missing invalid_argument = false

-- The types that a probability stands beside.
abbrev pub is_probable : Bytes → Bool
is_probable name =
    bytes_eq name (codes "probabilistic") || (bytes_eq name (codes "remote") || is_empty name)

abbrev pub is_known : Bytes → Bool
is_known name =
    is_probable name || (bytes_eq name (codes "const") || bytes_eq name (codes "ratelimiting"))

module _ {D : Type 0} (a : Arithmetic D) (default_probability : D) where
  -- What the theorem on errors says of a type in small letters.
  abbrev Errors : (Bytes → Bool) → ℕ → SamplerConfig D → Bytes → Type 0
  Errors connect now c name =
      (is_invalid (make_by_type a default_probability connect now name c)
        ≡ (is_probable name && not (in_unit a default_probability c.param)))
      × (is_missing (make_by_type a default_probability connect now name c) ≡ not (is_known name))

  by_name :
      (connect : Bytes → Bool) (now : ℕ) (c : SamplerConfig D) (name known : Bytes)
      → bytes_eq name known ≡ true
      → Errors connect now c known
      → Errors connect now c name
  by_name connect now c name known e h =
      subst (Errors connect now c) (sym ((bytes_eq_iff name known).0 e)) h

  probable_errors :
      (param : D)
      → (is_invalid (make_probabilistic a default_probability param)
          ≡ not (in_unit a default_probability param))
        × (is_missing (make_probabilistic a default_probability param) ≡ false)
  unfolding make_probabilistic
  probable_errors param = elim (Bool-cases (in_unit a default_probability param)) [
    | inl e ↦ rw (e, make_probabilistic) (refl, refl)
    | inr e ↦ rw (e, make_probabilistic) (refl, refl)
  ]

  remote_errors :
      (connect : Bytes → Bool) (c : SamplerConfig D)
      → let m =
          make_remote a default_probability connect c
            (make_probabilistic a default_probability c.param) in
        (is_invalid m ≡ not (in_unit a default_probability c.param)) × (is_missing m ≡ false)
  unfolding make_probabilistic make_remote
  remote_errors connect c = elim (Bool-cases (in_unit a default_probability c.param)) [
    | inl e ↦ rw (e, make_probabilistic) (refl, refl)
    | inr e ↦ rw (e, make_probabilistic) (refl, refl)
  ]

  make_by_type-Errors :
      (connect : Bytes → Bool) (now : ℕ) (c : SamplerConfig D) (name : Bytes)
      → Errors connect now c name
  unfolding make_by_type
  make_by_type-Errors connect now c name = elim (Bool-cases (bytes_eq name (codes "const"))) [
    | inl e ↦ by_name connect now c name (codes "const") e (unfold bytes_eq in (refl, refl))
    | inr e ↦ elim (Bool-cases (bytes_eq name (codes "probabilistic"))) [
      | inl f ↦
          by_name connect now c name (codes "probabilistic") f
            (unfold bytes_eq in probable_errors c.param)
      | inr f ↦ elim (Bool-cases (bytes_eq name (codes "ratelimiting"))) [
        | inl g ↦
            by_name connect now c name (codes "ratelimiting") g (unfold bytes_eq in (refl, refl))
        | inr g ↦ elim (Bool-cases (bytes_eq name (codes "remote"))) [
          | inl h ↦
              by_name connect now c name (codes "remote") h
                (unfold bytes_eq in remote_errors connect c)
          | inr h ↦ elim (Bool-cases (is_empty name)) [
            | inl k ↦ rw (e, f, g, h, k, make_by_type) (remote_errors connect c)
            | inr k ↦ rw (e, f, g, h, k, make_by_type) (refl, refl)
          ]
        ]
      ]
    ]
  ]

  pub make_sampler-errors :
      (connect : Bytes → Bool) (now : ℕ) (c : SamplerConfig D)
      → (is_invalid (make_sampler a default_probability connect now c)
          ≡ (is_probable (lower_case c.type_name) && not (in_unit a default_probability c.param)))
        × (is_missing (make_sampler a default_probability connect now c)
            ≡ not (is_known (lower_case c.type_name)))
  unfolding make_sampler
  make_sampler-errors connect now c = make_by_type-Errors connect now c (lower_case c.type_name)

  -- A remotely controlled sampler that is made starts as a probabilistic one of the configured rate, which
  -- is between 0 and 1.
  pub make_sampler-remote :
      (connect : Bytes → Bool) (now : ℕ) (c : SamplerConfig D) (r : Remote D) (manager : Manager)
      (interval : ℤ)
      → make_sampler a default_probability connect now c ≡ made_remote r manager interval
      → (r.sampler ≡ probabilistic_sampler (new_probabilistic a c.param))
        × (in_unit a default_probability c.param ≡ true)
  unfolding make_sampler make_by_type make_probabilistic make_remote
  make_sampler-remote connect now c r manager interval e = ground (arith, e)

-- The host and the port that `fromEnv` puts together are the ones that it was given.
pub parse_address-print :
    (host : Bytes) (port : ℕ)
    → Lacks is_colon host
    → port < 2 ^ 31
    → parse_address (host ++ b':' ∷ print_int (pos port)) ≡ (host, pos port)
unfolding parse_address
parse_address-print host port h lt =
    let digits : scan_int (print_int (pos port)) ≡ (true, pos port) =
      ap scan_int (sym (append-nil (print_int (pos port)))) ∙ scan_int-print_int port [] lt refl in
    ap host_and_port (span-append is_colon host (b':' ∷ print_int (pos port)) h refl)
    ∙ (unfold host_and_port in rw digits refl)

parse_address-host :
    (host rest : Bytes) → Lacks is_colon host → (parse_address (host ++ b':' ∷ rest)).0 ≡ host
unfolding parse_address host_and_port
parse_address-host host rest h =
    ap (λ (p : Bytes × Bytes). (host_and_port p).0) (span-append is_colon host (b':' ∷ rest) h refl)

set_agent_host-address :
    (host : Bytes) (c : ReporterConfig)
    → is_empty host ≡ false
    → (set_agent_host host c).local_agent_host_port
      ≡ host ++ b':' ∷ print_int (parse_address c.local_agent_host_port).1
unfolding set_agent_host
set_agent_host-address [] c h = absurd (false≢true (sym h))
set_agent_host-address (ch ∷ host) c h = refl

set_agent_port-address :
    (agent_port : Bytes) (port : ℕ) (c : ReporterConfig)
    → is_empty agent_port ≡ false
    → scan_int agent_port ≡ (true, pos port)
    → (set_agent_port agent_port c).local_agent_host_port
      ≡ (parse_address c.local_agent_host_port).0 ++ b':' ∷ print_int (pos port)
unfolding set_agent_port
set_agent_port-address agent_port port c p scan = simp (p, scan, set_agent_port) refl

-- If the environment sets the host and a port that can be read, the agent's address is that host with
-- that port, whatever the configuration was.
pub agent-address :
    (c : ReporterConfig) (host agent_port : Bytes) (port : ℕ)
    → is_empty host ≡ false
    → is_empty agent_port ≡ false
    → Lacks is_colon host
    → port < 2 ^ 31
    → scan_int agent_port ≡ (true, pos port)
    → parse_address (set_agent_port agent_port (set_agent_host host c)).local_agent_host_port
      ≡ (host, pos port)
agent-address c host agent_port port h p lacks lt scan =
    let c1 = set_agent_host host c in
    let same : (parse_address c1.local_agent_host_port).0 ≡ host =
      ap (λ t. (parse_address t).0) (set_agent_host-address host c h)
      ∙ parse_address-host host _ lacks in
    ap parse_address (
      set_agent_port-address agent_port port c1 p scan
      ∙ ap (λ t. t ++ b':' ∷ print_int (pos port)) same)
    ∙ parse_address-print host port lacks lt
