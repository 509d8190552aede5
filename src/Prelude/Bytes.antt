-- ===== src/Prelude/Bytes.antt =====
-- Texts as lists of bytes: the functions of Go's package strings that the program uses. The case of a
-- letter is that of ASCII, and other bytes stay as they are.
use Prim.Native.Char.{code}
use Prim.Native.String.{String}
use llm_cluster_router.Prelude.{
  ℕ, ◌+◌, List, [], ◌∷◌, Bool, true, false, ◌&&◌, ◌||◌, leb, ◌==◌, if◌then◌else◌, length,
}

-- The bytes of a text in ASCII.
abbrev pub codes : String → List ℕ
codes String.[] = []
codes (String.◌∷◌ c s) = code c ∷ codes s

unfoldable pub bytes_eq : List ℕ → List ℕ → Bool
bytes_eq [] [] = true
bytes_eq [] (c ∷ cs) = false
bytes_eq (b ∷ bs) [] = false
bytes_eq (b ∷ bs) (c ∷ cs) = b == c && bytes_eq bs cs

-- `strings.ToLower`.
abbrev lower_byte : ℕ → ℕ
lower_byte b = if leb 65 b && leb b 90 then b + 32 else b

unfoldable pub lower : List ℕ → List ℕ
lower [] = []
lower (b ∷ bs) = lower_byte b ∷ lower bs

-- `strings.TrimPrefix` and `strings.TrimSuffix` with one byte, and `strings.HasSuffix`.
unfoldable pub trim_prefix : ℕ → List ℕ → List ℕ
trim_prefix x [] = []
trim_prefix x (b ∷ bs) = if b == x then bs else b ∷ bs

unfoldable pub trim_suffix : ℕ → List ℕ → List ℕ
trim_suffix x [] = []
trim_suffix x (b ∷ []) = if b == x then [] else b ∷ []
trim_suffix x (b ∷ c ∷ bs) = b ∷ trim_suffix x (c ∷ bs)

unfoldable pub has_suffix : List ℕ → List ℕ → Bool
unfolding bytes_eq
has_suffix [] suffix = bytes_eq [] suffix
has_suffix (b ∷ bs) suffix =
    let rest = has_suffix bs suffix in if bytes_eq (b ∷ bs) suffix then true else rest

-- `strings.HasPrefix` and `strings.Contains`.
unfoldable pub starts_with : List ℕ → List ℕ → Bool
starts_with bs [] = true
starts_with [] (m ∷ ms) = false
starts_with (b ∷ bs) (m ∷ ms) = b == m && starts_with bs ms

unfoldable pub contains : List ℕ → List ℕ → Bool
unfolding starts_with
contains [] needle = starts_with [] needle
contains (b ∷ bs) needle =
    let rest = contains bs needle in if starts_with (b ∷ bs) needle then true else rest

abbrev pub is_space : ℕ → Bool
is_space b = b == 32 || (leb 9 b && leb b 13)

-- `strings.TrimSpace`, for the spaces of ASCII.
unfoldable pub trim_left : List ℕ → List ℕ
trim_left [] = []
trim_left (b ∷ bs) = if is_space b then trim_left bs else b ∷ bs

unfoldable pub trim_right : List ℕ → List ℕ
trim_right [] = []
trim_right (b ∷ bs) =
    let rest = trim_right bs in if is_space b && length rest == 0 then [] else b ∷ rest

unfoldable pub trim_space : List ℕ → List ℕ
unfolding trim_left trim_right
trim_space bs = trim_right (trim_left bs)
