-- ===== src/Examples/Connect.antt =====
-- A gateway that other hosts can reach, a tunnel to a listed target, and spellings of loopback.
use llm_cluster_router.Prelude.{ℕ, ◌≡◌, refl, List, [], ◌∷◌, Option, none, some, true, false, arith}
use llm_cluster_router.Prelude.Bytes.{codes}
use llm_cluster_router.Connect.Address.{ipv4, bare_host, scope_reachable}
use llm_cluster_router.Connect.Target.{connect_self_reference, names_local, loopback_numeric}
use llm_cluster_router.Connect.Spelling.{
  Part, octal, hexadecimal, IsPart, connect_self_reference-spelled,
}
use llm_cluster_router.Connect.{ConnectLeg, ConnectRequest, hijacked}

-- `net.ParseIP` for the hosts below, which are not address literals.
abbrev parse_none : List ℕ → Option ℕ
parse_none host = none

-- `0x7f.1`, `8.8`, and the port `443`.
abbrev short_loopback : List ℕ
short_loopback = 48 ∷ 120 ∷ 55 ∷ 102 ∷ 46 ∷ 49 ∷ []

abbrev public_host : List ℕ
public_host = 56 ∷ 46 ∷ 56 ∷ []

abbrev port : List ℕ
port = 52 ∷ 52 ∷ 51 ∷ []

-- `0177.0x1`: an octal part, and a hexadecimal one that fills three bytes.
abbrev octal_127 : Part
octal_127 = octal ((1, false) ∷ (7, false) ∷ (7, false) ∷ [])

abbrev hex_1 : Part
hex_1 = hexadecimal false ((1, false) ∷ [])

octal_127-IsPart : IsPart octal_127
octal_127-IsPart = record {
  some_digit = omega arith;
  below = (omega arith, (omega arith, (omega arith, tt)));
  leading = tt;
  fits = omega arith;
}

hex_1-IsPart : IsPart hex_1
hex_1-IsPart = record {
  some_digit = omega arith;
  below = (omega arith, tt);
  leading = tt;
  fits = omega arith;
}

connect_self_reference-spelled_example :
    connect_self_reference parse_none (codes "[0177.0x1]") port ([], port) false
    ≡ some (names_local loopback_numeric)
unfolding bare_host
connect_self_reference-spelled_example =
    connect_self_reference-spelled parse_none (codes "[0177.0x1]") port ([], port) octal_127
      (hex_1 ∷ []) (octal_127-IsPart, (hex_1-IsPart, tt)) (omega arith, omega arith) refl refl
      (omega arith) (omega arith)

-- The token `t`, presented as `Bearer t`.
abbrev leg : ConnectLeg
leg = record {
  enabled = true;
  token = 116 ∷ [];
  allowed = public_host ∷ [];
  max_concurrent = 2;
  scope = scope_reachable;
}

abbrev request : ConnectRequest
request = record {
  authorization = 66 ∷ 101 ∷ 97 ∷ 114 ∷ 101 ∷ 114 ∷ 32 ∷ 116 ∷ [];
  target = public_host;
  dialled = some (some (ipv4 5), some (ipv4 134_217_736));
  hijack = hijacked;
}
