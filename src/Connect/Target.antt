-- ===== src/Connect/Target.antt =====
-- Whether a CONNECT target names the gateway itself: localTargetKind, hostIP, sameHost and
-- connectSelfReference of internal/channel/connect_target.go. `parse_ip` is `net.ParseIP`, and
-- `split_host_port` the split that `splitHostPortLenient` makes of a listen address.
use llm_cluster_router.Prelude.{
  ℕ, ◌≡◌, subst, List, [], ◌∷◌, Option, none, some, Bool, false, ◌&&◌, not, if◌then◌else◌, length,
  ◌==◌, Option-cases, Bool-cases, inl, inr, arith,
}
use llm_cluster_router.Prelude.Bytes.{bytes_eq, lower, trim_suffix}
use llm_cluster_router.Connect.Address.{
  bare_host, is_reserved_loopback_name, parse_parts, split_at, pack, parse_ipv4_part,
  parse_ipv4_numeric, is_loopback, is_unspecified,
}
use llm_cluster_router.Connect.Numeric.{pack-loopback, parse_ipv4_numeric-parts}

-- The kinds of `localTargetKind`.
pub data LocalKind : Type 0 where
  empty_host loopback_address unspecified_address loopback_numeric unspecified_numeric
        loopback_name :
      LocalKind

-- The answers of `connectSelfReference`.
pub data SelfReference : Type 0 where
  own_port names_local : LocalKind → SelfReference
  own_address : SelfReference

parts_nonempty :
    (h : List ℕ) {v : ℕ} {vs : List ℕ}
    → parse_parts (split_at 46 h) ≡ some (v ∷ vs)
    → (length h == 0) ≡ false
unfolding split_at parse_parts parse_ipv4_part
parts_nonempty [] e = ground (arith, e)
parts_nonempty (b ∷ bs) e = ground arith

module _ (parse_ip : List ℕ → Option ℕ) where
  -- `localTargetKind` behind the address literals.
  unfoldable pub numeric_kind : List ℕ → Option ℕ → Option LocalKind
  unfolding is_loopback is_unspecified is_reserved_loopback_name
  numeric_kind h (some ip) =
      if is_loopback ip
      then some loopback_numeric
      else if is_unspecified ip
      then some unspecified_numeric
      else none
  numeric_kind h none = if is_reserved_loopback_name h then some loopback_name else none

  unfoldable pub address_kind : List ℕ → Option ℕ → Option LocalKind
  unfolding numeric_kind parse_ipv4_numeric
  address_kind h (some ip) =
      if is_loopback ip
      then some loopback_address
      else if is_unspecified ip
      then some unspecified_address
      else none
  address_kind h none = numeric_kind h (parse_ipv4_numeric h)

  -- `localTargetKind`.
  unfoldable pub local_target_kind : List ℕ → Option LocalKind
  unfolding address_kind bare_host
  local_target_kind host =
      let h = bare_host host in
      if length h == 0 then some empty_host else address_kind h (parse_ip h)

  -- `hostIP`.
  unfoldable pub host_ip : List ℕ → Option ℕ
  unfolding bare_host parse_ipv4_numeric
  host_ip host =
      let h = bare_host host in
      elim (parse_ip h) [ none ↦ parse_ipv4_numeric h | some ip ↦ some ip ]

  -- `sameHost`.
  unfoldable pub same_host : List ℕ → List ℕ → Bool
  unfolding host_ip bytes_eq lower trim_suffix
  same_host a b = elim (host_ip a) [
    | none ↦ elim (host_ip b) [
      | none ↦ bytes_eq (lower (trim_suffix 46 a)) (lower (trim_suffix 46 b))
      | some _ ↦ false
    ]
    | some x ↦ elim (host_ip b) [ none ↦ false | some y ↦ x == y ]
  ]

  -- A target that is not a local one: the listen address itself.
  unfoldable pub names_listen : List ℕ → List ℕ → Option SelfReference
  unfolding local_target_kind same_host
  names_listen host lhost = elim (local_target_kind lhost) [
    | none ↦ if not (length lhost == 0) && same_host host lhost then some own_address else none
    | some _ ↦ none
  ]

  -- `connectSelfReference`, for the two parts of the listen address.
  unfoldable pub connect_self_reference :
      List ℕ → List ℕ → List ℕ × List ℕ → Bool → Option SelfReference
  unfolding names_listen
  connect_self_reference host port (lhost, lport) loopback_only = elim (local_target_kind host) [
    | none ↦ names_listen host lhost
    | some kind ↦
        if loopback_only
        then if bytes_eq port lport && not (length port == 0) then some (own_port kind) else none
        else some (names_local kind)
  ]

  accepted-kind :
      (host port : List ℕ) (listen : List ℕ × List ℕ)
      → connect_self_reference host port listen false ≡ none
      → local_target_kind host ≡ none
  unfolding connect_self_reference
  accepted-kind host port listen h = elim (Option-cases (local_target_kind host)) [
    | inl e ↦ e
    | inr (kind, e) ↦ ground (arith, h, e)
  ]

  address_kind-none :
      (h : List ℕ) (ip : ℕ)
      → address_kind h (some ip) ≡ none
      → (is_loopback ip ≡ false) × (is_unspecified ip ≡ false)
  unfolding address_kind
  address_kind-none h ip e = ground (arith, e)

  numeric_kind-none :
      (h : List ℕ) (ip : ℕ)
      → numeric_kind h (some ip) ≡ none
      → (is_loopback ip ≡ false) × (is_unspecified ip ≡ false)
  unfolding numeric_kind
  numeric_kind-none h ip e = ground (arith, e)

  local_target_kind-none :
      (host : List ℕ)
      → local_target_kind host ≡ none
      → address_kind (bare_host host) (parse_ip (bare_host host)) ≡ none
  unfolding local_target_kind
  local_target_kind-none host e = elim (Bool-cases (length (bare_host host) == 0)) [
    | inl empty ↦ ground (arith, e, empty)
    | inr full ↦ ground (arith, e, full)
  ]

  -- A target that the configuration of a reachable gateway accepts is not local: where it denotes an
  -- address, however that is written, the address is neither a loopback one nor the unspecified one.
  pub connect_self_reference-none :
      (host port : List ℕ) (listen : List ℕ × List ℕ) (ip : ℕ)
      → connect_self_reference host port listen false ≡ none
      → host_ip host ≡ some ip
      → (is_loopback ip ≡ false) × (is_unspecified ip ≡ false)
  unfolding host_ip address_kind
  connect_self_reference-none host port listen ip h at =
      let b = bare_host host in
      let clean = local_target_kind-none host (accepted-kind host port listen h) in
      elim (Option-cases (parse_ip b)) [
        | inl named ↦
            let there : parse_ipv4_numeric b ≡ some ip = ground (arith, at, named) in
            numeric_kind-none b ip (ground (arith, clean, named, there))
        | inr (x, literal) ↦
            let same : x ≡ ip = ground (arith, at, literal) in
            subst (λ y. (is_loopback y ≡ false) × (is_unspecified y ≡ false)) same
              (address_kind-none b x (ground (arith, clean, literal)))
      ]

  -- Any spelling of an address whose first part is 127, in two to four parts and in decimal, octal
  -- or hexadecimal, is told to be a loopback address, if it is not an address literal.
  pub local_target_kind-numeric :
      (host : List ℕ) (w : ℕ) (vs : List ℕ) (a : ℕ)
      → parse_ip (bare_host host) ≡ none
      → parse_parts (split_at 46 (bare_host host)) ≡ some (127 ∷ w ∷ vs)
      → pack 4 (127 ∷ w ∷ vs) ≡ some a
      → local_target_kind host ≡ some loopback_numeric
  unfolding local_target_kind address_kind numeric_kind
  local_target_kind-numeric host w vs a literal parts packed =
      let read = parse_ipv4_numeric-parts (bare_host host) (127 ∷ w ∷ vs) a parts packed in
      let loop = pack-loopback w vs packed in
      ground (arith, literal, read, loop, parts_nonempty (bare_host host) parts)
