-- ===== src/Forward.antt =====
-- The request that goes upstream: internal/channel/forward.go. A request is its path, its query and its
-- headers; sending it and streaming the answer back are not modelled.
pub mod Target
pub mod Credentials
use llm_cluster_router.Prelude.{
  ℕ, List, [], ◌∷◌, ◌++◌, Option, none, some, Bool, true, false, not, ◌&&◌, ltb, leb, ◌==◌,
  if◌then◌else◌, length, drop,
}
use llm_cluster_router.Prelude.Bytes.{codes, lower, starts_with, trim_suffix, trim_space}
use llm_cluster_router.Config.Route.{AuthMode, auth_passthrough, RouteConfig, hop_by_hop, is_among}
use llm_cluster_router.Startup.{Headers, equal_fold, set_header, apply, mode_of}
use llm_cluster_router.Startup.Server.{BoundRoute}

-- `callerCredentialHeaders`.
abbrev pub caller_credential_headers : List (List ℕ)
caller_credential_headers =
    codes "Authorization"
    ∷ codes "Proxy-Authorization"
    ∷ codes "X-Api-Key"
    ∷ codes "Api-Key"
    ∷ codes "X-Goog-Api-Key"
    ∷ codes "Cookie"
    ∷ codes "OpenAI-Organization"
    ∷ codes "OpenAI-Project"
    ∷ []

unfoldable pub folds_among : List (List ℕ) → List ℕ → Bool
unfolding equal_fold
folds_among [] name = false
folds_among (d ∷ ds) name = if equal_fold name d then true else folds_among ds name

-- `isCallerCredential`.
unfoldable pub is_caller_credential : List ℕ → List ℕ → Bool
unfolding folds_among trim_space equal_fold
is_caller_credential name route_key_header =
    if folds_among caller_credential_headers name
    then true
    else not (length (trim_space route_key_header) == 0)
      && equal_fold name (trim_space route_key_header)

-- `modesSupplyingTheirOwnCredential`.
unfoldable pub supplies_own : AuthMode → Bool
supplies_own m = elim m [ auth_passthrough ↦ true | _ ↦ false ]

-- Whether the loop over the inbound headers passes a header on.
unfoldable pub keeps_header : Bool → List ℕ → List ℕ → Bool
unfolding is_among lower is_caller_credential
keeps_header strip key_header name =
    if is_among hop_by_hop (lower name)
    then false
    else not (strip && is_caller_credential name key_header)

-- The loop over the inbound headers.
unfoldable pub pass_headers : Bool → List ℕ → Headers → Headers
unfolding keeps_header
pass_headers strip key_header [] = []
pass_headers strip key_header ((n, v) ∷ hs) =
    if keeps_header strip key_header n
    then (n, v) ∷ pass_headers strip key_header hs
    else pass_headers strip key_header hs

-- `strings.TrimRight` with the slash.
unfoldable pub trim_slashes : List ℕ → List ℕ
trim_slashes [] = []
trim_slashes (b ∷ bs) =
    let rest = trim_slashes bs in if b == 47 && length rest == 0 then [] else b ∷ rest

-- The path of the upstream request: without the prefix, and with a slash in front.
unfoldable pub upstream_path : List ℕ → List ℕ → List ℕ
upstream_path prefix path =
    let base = trim_suffix 47 prefix in
    let rest = if starts_with path base then drop (length base) path else path in
    if starts_with rest (47 ∷ []) then rest else 47 ∷ rest

-- `target`.
unfoldable pub target_url : RouteConfig → List ℕ → List ℕ → List ℕ
unfolding upstream_path
target_url r path query =
    let target = trim_slashes r.upstream ++ upstream_path r.prefix path in
    if length query == 0 then target else target ++ (63 ∷ query)

abbrev pub user_agent : List ℕ
user_agent = codes "User-Agent"

abbrev pub agent : List ℕ
agent = codes "helixchannel-gateway/1"

-- The headers of the upstream request, or the refusal of its authenticator.
unfoldable pub outbound_headers : BoundRoute → Headers → Option Headers
unfolding pass_headers supplies_own mode_of set_header apply
outbound_headers rt hs =
    let strip = not (supplies_own (mode_of rt.auth)) in
    apply rt.auth (set_header user_agent agent (pass_headers strip rt.route.key_header hs))

-- `redirectNotFollowed`, for the status and the location of an answer.
unfoldable pub redirect_not_followed : ℕ → List ℕ → Bool
redirect_not_followed status location =
    if ltb status 300 then false else if ltb 399 status then false else not (length location == 0)
