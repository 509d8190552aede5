-- ===== src/Connect/Address.antt =====
-- The addresses of internal/channel/connect_target.go. An IP address is the number of its 16 bytes, so
-- that an IPv4 address is the mapped one, as `net.IP` compares them.
use llm_cluster_router.Prelude.{
  ℕ, zero, suc, ◌+◌, ◌-◌, ◌*◌, ◌/◌, ◌%◌, ◌^◌, List, [], ◌∷◌, Option, none, some, Bool, true, false,
  ◌&&◌, ◌||◌, ltb, leb, ◌==◌, if◌then◌else◌,
}
use llm_cluster_router.Prelude.Bytes.{bytes_eq, lower, trim_prefix, trim_suffix, has_suffix}

-- The bytes before the first one that is `x`, if there is one.
unfoldable pub before_byte : ℕ → List ℕ → Option (List ℕ)
before_byte x [] = none
before_byte x (b ∷ bs) =
    if b == x then some [] else elim (before_byte x bs) [ none ↦ none | some cs ↦ some (b ∷ cs) ]

-- Whether the first dot or colon is a colon: the byte is 58, a dot 46.
unfoldable pub starts_ipv6 : List ℕ → Bool
starts_ipv6 [] = false
starts_ipv6 (b ∷ bs) = if b == 58 then true else if b == 46 then false else starts_ipv6 bs

-- `bareHost`: no brackets, and no zone behind an IPv6 address. 91, 93 and 37 are the brackets and
-- the percent sign.
unfoldable pub bare_host : List ℕ → List ℕ
unfolding trim_prefix trim_suffix before_byte starts_ipv6
bare_host host =
    let h = trim_suffix 93 (trim_prefix 91 host) in
    elim (before_byte 37 h) [ none ↦ h | some before ↦ if starts_ipv6 before then before else h ]

-- `localhost`, as bytes, and the reserved names that begin with it or with `ip6-`.
abbrev localhost : List ℕ
localhost = 108 ∷ 111 ∷ 99 ∷ 97 ∷ 108 ∷ 104 ∷ 111 ∷ 115 ∷ 116 ∷ []

-- `.localdomain` behind `localhost`.
abbrev localhost_localdomain : List ℕ
localhost_localdomain =
    108 ∷ 111 ∷ 99 ∷ 97 ∷ 108 ∷ 104 ∷ 111 ∷ 115 ∷ 116 ∷ 46 ∷ 108 ∷ 111 ∷ 99 ∷ 97 ∷ 108 ∷ 100 ∷ 111
    ∷ 109 ∷ 97 ∷ 105 ∷ 110 ∷ []

abbrev ip6_localhost : List ℕ
ip6_localhost = 105 ∷ 112 ∷ 54 ∷ 45 ∷ localhost

-- `ip6-loopback`.
abbrev ip6_loopback : List ℕ
ip6_loopback = 105 ∷ 112 ∷ 54 ∷ 45 ∷ 108 ∷ 111 ∷ 111 ∷ 112 ∷ 98 ∷ 97 ∷ 99 ∷ 107 ∷ []

-- `isReservedLoopbackName`.
unfoldable pub is_reserved_loopback_name : List ℕ → Bool
unfolding bytes_eq lower trim_suffix has_suffix
is_reserved_loopback_name host =
    let name = lower (trim_suffix 46 host) in
    bytes_eq name localhost
    || bytes_eq name localhost_localdomain
    || bytes_eq name ip6_localhost
    || bytes_eq name ip6_loopback
    || has_suffix name (46 ∷ localhost)

-- The value of a digit as `strconv.ParseUint` reads it.
unfoldable pub digit_value : ℕ → Option ℕ
digit_value b =
    if leb 48 b && leb b 57
    then some (b - 48)
    else if leb 97 b && leb b 122
    then some (b - 87)
    else if leb 65 b && leb b 90
    then some (b - 55)
    else none

-- `strconv.ParseUint` behind its first digits, without its bound, which the callers' is below.
unfoldable pub parse_digits : ℕ → ℕ → List ℕ → Option ℕ
unfolding digit_value
parse_digits base acc [] = some acc
parse_digits base acc (b ∷ bs) = elim (digit_value b) [
  | none ↦ none
  | some d ↦ if ltb d base then parse_digits base (acc * base + d) bs else none
]

abbrev pub max_uint32 : ℕ
max_uint32 = 4_294_967_295

-- A part with its base, once its prefix is gone.
unfoldable pub parse_part_in : ℕ → List ℕ → Option ℕ
unfolding parse_digits
parse_part_in base [] = none
parse_part_in base (b ∷ bs) = elim (parse_digits base 0 (b ∷ bs)) [
  | none ↦ none
  | some v ↦ if ltb max_uint32 v then none else some v
]

-- `parseIPv4Part`: 48 is a zero, 120 and 88 are the letter x.
unfoldable pub parse_ipv4_part : List ℕ → Option ℕ
unfolding parse_part_in
parse_ipv4_part [] = none
parse_ipv4_part (b ∷ []) = parse_part_in 10 (b ∷ [])
parse_ipv4_part (b ∷ c ∷ bs) =
    if b == 48 && (c == 120 || c == 88)
    then parse_part_in 16 bs
    else if b == 48
    then parse_part_in 8 (c ∷ bs)
    else parse_part_in 10 (b ∷ c ∷ bs)

-- `strings.Split` at a byte.
unfoldable pub split_at : ℕ → List ℕ → List (List ℕ)
split_at x [] = [] ∷ []
split_at x (b ∷ bs) =
    let rest = split_at x bs in
    if b == x then [] ∷ rest else elim rest [ [] ↦ (b ∷ []) ∷ [] | p ∷ ps ↦ (b ∷ p) ∷ ps ]

unfoldable pub parse_parts : List (List ℕ) → Option (List ℕ)
unfolding parse_ipv4_part
parse_parts [] = some []
parse_parts (p ∷ ps) = elim (parse_ipv4_part p) [
  | none ↦ none
  | some v ↦ elim (parse_parts ps) [ none ↦ none | some vs ↦ some (v ∷ vs) ]
]

-- The address of the parts, with this many bytes left: each part but the last is one byte, and the
-- last one fills the rest.
unfoldable pub pack : ℕ → List ℕ → Option ℕ
pack zero vs = none
pack (suc m) [] = none
pack (suc m) (v ∷ []) = if ltb v (256 ^ suc m) then some v else none
pack (suc m) (v ∷ w ∷ vs) =
    let rest = pack m (w ∷ vs) in
    if ltb 255 v then none else elim rest [ none ↦ none | some a ↦ some (v * 256 ^ m + a) ]

-- The mapped address of an IPv4 address.
abbrev pub ipv4 : ℕ → ℕ
ipv4 a = 65_535 * 2 ^ 32 + a

-- `parseIPv4Numeric`.
unfoldable pub parse_ipv4_numeric : List ℕ → Option ℕ
unfolding split_at parse_parts pack
parse_ipv4_numeric host = elim (parse_parts (split_at 46 host)) [
  | none ↦ none
  | some vs ↦ elim (pack 4 vs) [ none ↦ none | some a ↦ some (ipv4 a) ]
]

-- `IP.IsLoopback` and `IP.IsUnspecified`.
unfoldable pub is_loopback : ℕ → Bool
is_loopback ip = if ip / 2 ^ 32 == 65_535 then ip % 2 ^ 32 / 2 ^ 24 == 127 else ip == 1

unfoldable pub is_unspecified : ℕ → Bool
is_unspecified ip = ip == 0 || ip == ipv4 0

-- `listenScope`, and `boundListenScope` of the address in a `net.Addr`.
pub data ListenScope : Type 0 where
  scope_unknown scope_loopback_only scope_reachable : ListenScope

unfoldable pub bound_listen_scope : Option ℕ → ListenScope
unfolding is_loopback is_unspecified
bound_listen_scope none = scope_reachable
bound_listen_scope (some ip) =
    if is_unspecified ip
    then scope_reachable
    else if is_loopback ip
    then scope_loopback_only
    else scope_reachable

pub data DialRefusal : Type 0 where
  target_resolves_to_loopback target_resolves_to_gateway_host : DialRefusal

-- The refusal behind the address of the other end.
unfoldable pub refuse_dial : Option ℕ → Option ℕ → Option DialRefusal
unfolding is_loopback is_unspecified
refuse_dial local none = none
refuse_dial none (some rip) =
    if is_loopback rip || is_unspecified rip then some target_resolves_to_loopback else none
refuse_dial (some lip) (some rip) =
    if is_loopback rip || is_unspecified rip
    then some target_resolves_to_loopback
    else if lip == rip
    then some target_resolves_to_gateway_host
    else none

-- `connectDialRefusal` for the addresses of the local and the remote end.
unfoldable pub connect_dial_refusal : ListenScope → Option ℕ → Option ℕ → Option DialRefusal
unfolding refuse_dial
connect_dial_refusal scope_loopback_only local remote = none
connect_dial_refusal scope_unknown local remote = refuse_dial local remote
connect_dial_refusal scope_reachable local remote = refuse_dial local remote
