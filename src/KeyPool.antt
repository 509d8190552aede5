-- ===== src/KeyPool.antt =====
-- The key rotation of a node: internal/keypool/keypool.go. The cursor is a uint64 and wraps. `now` is
-- the clock in Unix nanoseconds; the atomic loads of one call are taken together.
pub mod Rotation
use llm_cluster_router.Prelude.{
  ℕ, zero, suc, ◌+◌, ◌-◌, ◌%◌, List, [], ◌∷◌, String, Bool, true, false, ◌&&◌, ◌||◌, ltb, leb, ◌==◌,
  if◌then◌else◌, length, get_or, modify, replicate,
}
use llm_cluster_router.Prelude.Int.{ℤ, pos, negsuc}

abbrev pub uint64_mod : ℕ
uint64_mod = 18_446_744_073_709_551_616

pub record Pool : Type 0 where
  pub keys : List String
  pub cooldown : ℤ
  pub idx : ℕ
  pub cool_until : List ℕ

-- `New`.
unfoldable pub new_pool : List String → ℤ → Pool
new_pool keys cooldown = record {
  keys = keys;
  cooldown = cooldown;
  idx = 0;
  cool_until = replicate (length keys) 0;
}

-- The position that the loop of `Next` looks at in round `off`.
abbrev pub slot : ℕ → ℕ → ℕ → ℕ
slot start off n = (start + off) % uint64_mod % n

abbrev pub is_healthy : ℕ → List ℕ → ℕ → Bool
is_healthy now cool i = leb (get_or cool i 0) now

-- The loop of `Next` from round `off` on, with `rounds` left; behind it the plain round-robin key.
unfoldable pub scan : ℕ → List ℕ → ℕ → ℕ → ℕ → ℕ → ℕ
scan now cool n start off zero = start % n
scan now cool n start off (suc rounds) =
    let rest = scan now cool n start (off + 1) rounds in
    if is_healthy now cool (slot start off n) then slot start off n else rest

-- `Next`: the key and its index, or ("", -1).
unfoldable pub next : ℕ → Pool → Pool × String × ℤ
unfolding scan
next now p =
    let i = scan now p.cool_until (length p.keys) p.idx 0 (length p.keys) in
    if length p.keys == 0
    then (p, "", negsuc 0)
    else (record p { idx = (p.idx + 1) % uint64_mod }, get_or p.keys i "", pos i)

-- `MarkExhausted`: out of range, or with a cooldown that is not positive, it does nothing.
unfoldable pub mark_exhausted : ℕ → ℤ → Pool → Pool
mark_exhausted now (negsuc _) p = p
mark_exhausted now (pos i) p = elim p.cooldown [
  | negsuc _ ↦ p
  | pos c ↦
      if leb (length p.keys) i || leb c 0
      then p
      else record p { cool_until = modify p.cool_until i (λ _. now + c) }
]

unfoldable pub cooling_from : ℕ → List ℕ → ℕ
cooling_from now [] = 0
cooling_from now (t ∷ ts) = (if ltb now t then 1 else 0) + cooling_from now ts

-- `Cooling`, `AllCooling` and `Size`.
unfoldable pub cooling : ℕ → Pool → ℕ
unfolding cooling_from
cooling now p = cooling_from now p.cool_until

unfoldable pub size : Pool → ℕ
size p = length p.keys

unfoldable pub all_cooling : ℕ → Pool → Bool
unfolding cooling
all_cooling now p = ltb 0 (length p.keys) && cooling now p == length p.keys
