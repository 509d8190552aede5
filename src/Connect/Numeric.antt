-- ===== src/Connect/Numeric.antt =====
-- The numeric spellings of IPv4 addresses that internal/channel/connect_target.go reads.
use native.Mathlib.Nat.{mul-le-mul_right, pow-succ'}
use llm_cluster_router.Prelude.{
  ℕ, zero, suc, ◌+◌, ◌*◌, ◌^◌, ◌≡◌, ◌<◌, ◌≤◌, refl, ◌∙◌, List, [], ◌∷◌, some, true, false, ltb,
  if◌then◌else◌, Option-cases, inl, inr, arith,
}
use llm_cluster_router.Connect.Address.{
  pack, ipv4, parse_parts, split_at, parse_ipv4_numeric, is_loopback,
}

place_lt : (p v b : ℕ) → v < 256 → b < p → v * p + b < 256 * p
place_lt p v b h k =
    let most : v * p ≤ 255 * p = mul-le-mul_right p (omega arith) in omega (arith, most, k)

pub pack-lt : (m : ℕ) (vs : List ℕ) {a : ℕ} → pack m vs ≡ some a → a < 256 ^ m
unfolding pack
pack-lt zero vs h = ground arith
pack-lt (suc m) [] h = ground arith
pack-lt (suc m) (v ∷ []) {a} h = ground (arith, h)
pack-lt (suc m) (v ∷ w ∷ vs) {a} h = elim (Option-cases (pack m (w ∷ vs))) [
  | inl e ↦ ground (arith, h, e)
  | inr (b, e) ↦
      let small = pack-lt m (w ∷ vs) e in
      ground (arith, h, e, place_lt (256 ^ m) v b, small, pow-succ' 256 m)
]

pub is_loopback-ipv4 :
    (a : ℕ)
    → a < 2 ^ 32
    → is_loopback (ipv4 a) ≡ (if ltb a 2_130_706_432 then false else ltb a 2_147_483_648)
unfolding is_loopback
is_loopback-ipv4 a h = ground arith

-- However it is written, an address of two to four parts that begins with 127 is a loopback address.
pub pack-loopback :
    (w : ℕ) (vs : List ℕ) {a : ℕ} → pack 4 (127 ∷ w ∷ vs) ≡ some a → is_loopback (ipv4 a) ≡ true
unfolding pack
pack-loopback w vs {a} h = elim (Option-cases (pack 3 (w ∷ vs))) [
  | inl e ↦ ground (arith, h, e)
  | inr (b, e) ↦
      let small : b < 16_777_216 = pack-lt 3 (w ∷ vs) e in
      let value : a ≡ 2_130_706_432 + b = ground (arith, h, e) in
      is_loopback-ipv4 a (omega (arith, value, small)) ∙ ground (arith, value, small)
]

pub parse_ipv4_numeric-parts :
    (host : List ℕ) (vs : List ℕ) (a : ℕ)
    → parse_parts (split_at 46 host) ≡ some vs
    → pack 4 vs ≡ some a
    → parse_ipv4_numeric host ≡ some (ipv4 a)
unfolding parse_ipv4_numeric
parse_ipv4_numeric-parts host vs a parts packed = rw (parse_ipv4_numeric, parts, packed) refl
