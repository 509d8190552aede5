-- ===== src/RouterConfig/Valid.antt =====
-- What LoadConfig promises of the configuration that it returns.
use llm_cluster_router.Prelude.{
  ℕ, suc, ◌≡◌, ◌≢◌, ◌≤◌, refl, ap, inl, inr, List, [], ◌∷◌, ◌++◌, Option, none, some, true, false,
  ◌==◌, if◌then◌else◌, length, All, Bool-cases, Option-cases, subst, arith,
}
use llm_cluster_router.Prelude.Bytes.{bytes_eq, has_suffix, lower}
use llm_cluster_router.RouterConfig.{
  forbidden_host, Loaded, load_failed, loaded, NodeConfig, RouterConfig, loopback_host,
  diagnostic_listen_addr,
}
use llm_cluster_router.RouterConfig.Nodes.{
  forbidden_suffixes, is_forbidden, validate_upstream_url, validate_auth_header, validate_workloads,
  expand_node,
}
use llm_cluster_router.RouterConfig.Load.{
  is_negative, fill_addresses, check_node, cons_node, load_nodes, with_nodes, fill, load_config,
}
use llm_cluster_router.RouterConfig.Hosts.{OutsideOf, is_forbidden-OutsideOf}
use llm_cluster_router.RouterConfig.Accepted.{
  IsBounded, fill_defaults-IsBounded, IsProbing, fill_health-IsProbing, IsFair,
  fill_fair_share-IsFair, HasSoundHeader, validate_auth_header-HasSoundHeader, IsClass,
  validate_workloads-All, first_error-none, text_else-pos,
}

loaded_inj : {A : Type 0} {a b : A} → loaded a ≡ loaded b → a ≡ b
loaded_inj h = cc

no_bytes : (bs : List ℕ) → (length bs == 0) ≡ true → bs ≡ []
no_bytes [] h = refl
no_bytes (b ∷ bs) h = absurd (ground (arith, h))

some_left : (ns : List NodeConfig) → (length ns == 0) ≡ false → 1 ≤ length ns
some_left [] h = absurd (ground (arith, h))
some_left (n ∷ ns) h = omega arith

-- The test of validateUpstreamURL, for a host in lower case.
allowed :
    (name host : List ℕ)
    → (if length host == 0
        then none
        else if is_forbidden forbidden_suffixes host
        then some (forbidden_host name)
        else none)
      ≡ none
    → is_forbidden forbidden_suffixes host ≡ false
unfolding bytes_eq has_suffix
allowed name [] h = unfold is_forbidden in refl
allowed name (b ∷ bs) h = elim (Bool-cases (is_forbidden forbidden_suffixes (b ∷ bs))) [
  | inl e ↦ absurd (ground (arith, rw e at h))
  | inr e ↦ e
]

module _ (split : List ℕ → Option (List ℕ × List ℕ))
    (host_of lookup_env : List ℕ → Option (List ℕ)) where
  -- The host of a node's URL, if it has one that parses.
  abbrev node_host : NodeConfig → Option (List ℕ)
  node_host n = if length n.url == 0 then none else host_of n.url

  abbrev IsOutside : Option (List ℕ) → Type 0
  IsOutside none = Unit
  IsOutside (some host) = OutsideOf forbidden_suffixes (lower host)

  pub record IsNode (n : NodeConfig) : Type 0 where
    pub host : IsOutside (node_host n)
    pub header : HasSoundHeader n
    pub classes : All IsClass n.workloads

  host_ok :
      (n : NodeConfig) → validate_upstream_url host_of n.name n.url ≡ none → IsOutside (node_host n)
  unfolding validate_upstream_url
  host_ok n h = elim (Bool-cases (length n.url == 0)) [
    | inl e ↦ rw e tt
    | inr e ↦ elim (Option-cases (host_of n.url)) [
      | inl e' ↦ rw (e, e') tt
      | inr (host, e') ↦
          rw (e, e')
            (is_forbidden-OutsideOf forbidden_suffixes (lower host)
              (allowed n.name (lower host) (rw (e, e') at h)))
    ]
  ]

  check_node-IsNode : (n : NodeConfig) → check_node split host_of lookup_env n ≡ none → IsNode n
  unfolding check_node
  check_node-IsNode n h =
      let (url, later) = first_error-none (validate_upstream_url host_of n.name n.url) _ h in
      let (header, classes) =
        first_error-none (validate_auth_header n) (validate_workloads n) later in
      record {
        host = host_ok n url;
        header = validate_auth_header-HasSoundHeader n header;
        classes = validate_workloads-All n classes;
      }

  cons_node-loaded :
      (n : NodeConfig) (rest : Loaded (List NodeConfig)) {ms : List NodeConfig}
      → cons_node split host_of lookup_env n rest ≡ loaded ms
      → (ns : List NodeConfig) × (rest ≡ loaded ns) × (n ∷ ns ≡ ms)
  unfolding cons_node
  cons_node-loaded n (load_failed e) h = absurd (ground (arith, h))
  cons_node-loaded n (loaded ns) h = (ns, refl, cc)

  load_nodes-IsNode :
      (ns : List NodeConfig) {ms : List NodeConfig}
      → load_nodes split host_of lookup_env ns ≡ loaded ms
      → All IsNode ms × (length ms ≡ length ns)
  unfolding load_nodes
  load_nodes-IsNode [] {ms} h =
      let none_left : [] ≡ ms = cc in
      subst (λ l. All IsNode l × (length l ≡ 0)) none_left (tt, refl)
  load_nodes-IsNode (n ∷ ns) h =
      let m = expand_node lookup_env n in
      elim (Option-cases (check_node split host_of lookup_env m)) [
        | inl e ↦
            let (later, got, is) =
              cons_node-loaded m (load_nodes split host_of lookup_env ns)
                (rw (e, load_nodes) at h) in
            let (all, size) = load_nodes-IsNode ns got in
            subst (λ l. All IsNode l × (length l ≡ suc (length ns))) is
              ((check_node-IsNode m e, all), ap suc size)
        | inr (x, e) ↦ absurd (ground (arith, rw (e, load_nodes) at h))
      ]

  -- An address that does not parse into an empty host and a port. One that does not parse at all is left
  -- to the listener, which refuses it.
  abbrev NotHostless : List ℕ → Type 0
  NotHostless addr = (port : List ℕ) → split addr ≢ some ([], port)

  -- What a configuration has once it is loaded.
  pub record IsLoaded (c : RouterConfig) : Type 0 where
    pub bounded : IsBounded c.defaults
    pub probing : IsProbing c.health_check
    pub fair : IsFair c.fair_share
    pub listens : 1 ≤ length c.listen
    pub metrics : NotHostless c.metrics_addr
    pub debug : NotHostless c.debug_addr
    pub some_node : 1 ≤ length c.nodes
    pub nodes : All IsNode c.nodes

  -- A port behind the loopback host splits off again.
  abbrev pub SplitsLoopback : Type 0
  SplitsLoopback =
      (addr port : List ℕ)
      → split addr ≡ some ([], port)
      → split (loopback_host ++ 58 ∷ port) ≡ some (loopback_host, port)

  diagnostic-NotHostless :
      split [] ≡ none
      → SplitsLoopback
      → (addr : List ℕ) → NotHostless (diagnostic_listen_addr split addr)
  unfolding diagnostic_listen_addr
  diagnostic-NotHostless no_address joined addr port h = elim (Bool-cases (length addr == 0)) [
    | inl e ↦ let empty : split [] ≡ some ([], port) = rw e at h in absurd (cc)
    | inr e ↦ elim (Option-cases (split addr)) [
      | inl e' ↦ let unread : split addr ≡ some ([], port) = rw (e, e') at h in absurd (cc)
      | inr ((host, p), e') ↦ elim (Bool-cases (length host == 0)) [
        | inl f ↦
            let added : split (loopback_host ++ 58 ∷ p) ≡ some ([], port) = rw (e, e', f) at h in
            let back = joined addr p (subst (λ x. split addr ≡ some (x, p)) (no_bytes host f) e') in
            absurd (cc)
        | inr f ↦
            let kept : split addr ≡ some ([], port) = rw (e, e', f) at h in
            absurd (ground (arith, kept, e', f))
      ]
    ]
  ]

  filled-IsLoaded :
      split [] ≡ none
      → SplitsLoopback
      → (c : RouterConfig) (ns : List NodeConfig)
      → is_negative c.health_check.live_probe.interval ≡ false
      → is_negative c.health_check.live_probe.burst ≡ false
      → 1 ≤ length ns
      → All IsNode ns
      → IsLoaded (record (fill split host_of lookup_env c) { nodes = ns })
  unfolding fill fill_addresses
  filled-IsLoaded no_address joined c ns p q size all = record {
    bounded = fill_defaults-IsBounded c.defaults;
    probing = fill_health-IsProbing c.health_check p q;
    fair = fill_fair_share-IsFair c.fair_share;
    listens = text_else-pos _ c.listen (omega arith);
    metrics = diagnostic-NotHostless no_address joined _;
    debug = diagnostic-NotHostless no_address joined c.debug_addr;
    some_node = size;
    nodes = all;
  }

  with_nodes-loaded :
      (c : RouterConfig) (rest : Loaded (List NodeConfig)) {d : RouterConfig}
      → with_nodes split host_of lookup_env c rest ≡ loaded d
      → (ns : List NodeConfig) × (rest ≡ loaded ns) × (record c { nodes = ns } ≡ d)
  unfolding with_nodes
  with_nodes-loaded c (load_failed e) h = absurd (ground (arith, h))
  with_nodes-loaded c (loaded ns) h = (ns, refl, loaded_inj h)

  -- A configuration that is loaded has a positive queue depth, concurrency, request timeout, body size,
  -- body timeout, breaker threshold and breaker cooldown, and a key cooldown that is not negative; positive
  -- periods, timeouts and thresholds of the health checks, and live-probe settings that are not negative; a
  -- positive rate, window and burst where the scheduler is on; a listen address; no diagnostic address that
  -- parses into an empty host and a port; and at least one node. A node's host, where its URL has one, is
  -- outside of the forbidden domains; its classes are known ones; and where it names a credential header,
  -- that is not Authorization and there is a key for it. `split` reads no address from an empty text, and
  -- takes a port off the loopback host again.
  pub load_config-IsLoaded :
      split [] ≡ none
      → SplitsLoopback
      → (c d : RouterConfig) → load_config split host_of lookup_env c ≡ loaded d
      → IsLoaded d
  unfolding load_config
  load_config-IsLoaded no_address joined c d h =
      elim (Bool-cases (is_negative c.defaults.body_read_timeout)) [
        | inl e ↦ absurd (ground (arith, rw e at h))
        | inr e ↦ elim (Bool-cases (is_negative c.health_check.live_probe.interval)) [
          | inl p ↦ absurd (ground (arith, rw (e, p) at h))
          | inr p ↦ elim (Bool-cases (is_negative c.health_check.live_probe.burst)) [
            | inl q ↦ absurd (ground (arith, rw (e, p, q) at h))
            | inr q ↦ elim (Bool-cases (length c.nodes == 0)) [
              | inl f ↦ absurd (ground (arith, rw (e, p, q, f) at h))
              | inr f ↦
                  let filled = fill split host_of lookup_env c in
                  let (ns, got, is) =
                    with_nodes-loaded filled (load_nodes split host_of lookup_env c.nodes)
                      (rw (e, p, q, f) at h) in
                  let (all, size) = load_nodes-IsNode c.nodes got in
                  subst IsLoaded is (
                    filled-IsLoaded no_address joined c ns p q
                      (omega (arith, size, some_left c.nodes f)) all)
            ]
          ]
        ]
      ]
