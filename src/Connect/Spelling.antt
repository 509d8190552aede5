-- ===== src/Connect/Spelling.antt =====
-- How an IPv4 address may be written as the host of a CONNECT target, and what the configuration makes of
-- it. The spellings are described here on their own: each part in decimal, octal or hexadecimal.
use llm_cluster_router.Prelude.{
  ℕ, zero, suc, ◌+◌, ◌*◌, ◌^◌, ◌≡◌, ◌≤◌, ◌<◌, refl, ◌∙◌, ap, List, [], ◌∷◌, ◌++◌, Option, none,
  some, Bool, true, false, ◌==◌, ltb, if◌then◌else◌, length, length-append, map, All, arith,
}
use llm_cluster_router.Connect.Address.{
  bare_host, digit_value, parse_digits, max_uint32, parse_part_in, parse_ipv4_part, split_at,
  parse_parts, pack, ipv4, parse_ipv4_numeric, is_loopback,
}
use llm_cluster_router.Connect.Numeric.{is_loopback-ipv4, parse_ipv4_numeric-parts}
use llm_cluster_router.Connect.Target.{
  loopback_numeric, names_local, numeric_kind, address_kind, local_target_kind,
  connect_self_reference,
}

-- A digit, and whether it is written as a capital letter where it is a letter.
abbrev pub Digit : Type 0
Digit = ℕ × Bool

abbrev pub char_of : Digit → ℕ
char_of (d, capital) = if ltb d 10 then 48 + d else if capital then 55 + d else 87 + d

abbrev pub Digits : Type 0
Digits = List Digit

-- A part in one of the three bases; in hexadecimal, whether the x is a capital one.
pub data Part : Type 0 where
  decimal octal : Digits → Part
  hexadecimal : Bool → Digits → Part

abbrev pub base_of : Part → ℕ
base_of (decimal ds) = 10
base_of (octal ds) = 8
base_of (hexadecimal capital ds) = 16

abbrev pub digits_of : Part → Digits
digits_of (decimal ds) = ds
digits_of (octal ds) = ds
digits_of (hexadecimal capital ds) = ds

abbrev chars : Digits → List ℕ
chars [] = []
chars (d ∷ ds) = char_of d ∷ chars ds

-- The text of a part: octal ones begin with a 0, hexadecimal ones with 0x.
abbrev pub text_of : Part → List ℕ
text_of (decimal ds) = chars ds
text_of (octal ds) = 48 ∷ chars ds
text_of (hexadecimal capital ds) = 48 ∷ (if capital then 88 else 120) ∷ chars ds

-- The number that digits write in a base, behind a number.
abbrev value_from : ℕ → ℕ → Digits → ℕ
value_from base acc [] = acc
value_from base acc ((d, capital) ∷ ds) = value_from base (acc * base + d) ds

abbrev pub value_of : Part → ℕ
value_of p = value_from (base_of p) 0 (digits_of p)

-- A decimal part of more than one digit does not begin with a 0.
abbrev NoLeadingZero : Part → Type 0
NoLeadingZero (decimal (d ∷ e ∷ ds)) = 0 < d.0
NoLeadingZero p = Unit

pub record IsPart (p : Part) : Type 0 where
  pub some_digit : 0 < length (digits_of p)
  pub below : All (λ d. d.0 < base_of p) (digits_of p)
  pub leading : NoLeadingZero p
  pub fits : value_of p ≤ max_uint32

-- The parts with dots between them.
abbrev pub spelled : List Part → List ℕ
spelled [] = []
spelled (p ∷ []) = text_of p
spelled (p ∷ q ∷ ps) = text_of p ++ 46 ∷ spelled (q ∷ ps)

-- The address that parts denote in this many bytes: each part but the last is a byte, and the last one
-- fills the rest.
abbrev pub address : ℕ → List Part → ℕ
address zero ps = 0
address (suc m) [] = 0
address (suc m) (p ∷ []) = value_of p
address (suc m) (p ∷ q ∷ ps) = value_of p * 256 ^ m + address m (q ∷ ps)

abbrev pub Fits : ℕ → List Part → Type 0
Fits zero ps = ⊥
Fits (suc m) [] = ⊥
Fits (suc m) (p ∷ []) = value_of p < 256 ^ suc m
Fits (suc m) (p ∷ q ∷ ps) = (value_of p < 256) × Fits m (q ∷ ps)

digit_value-char_of : (d : Digit) → d.0 < 16 → digit_value (char_of d) ≡ some d.0
unfolding digit_value
digit_value-char_of (d, true) h = ground (arith, h)
digit_value-char_of (d, false) h = ground (arith, h)

parse_digits-chars :
    (base acc : ℕ) (ds : Digits)
    → base ≤ 16
    → All (λ d. d.0 < base) ds
    → parse_digits base acc (chars ds) ≡ some (value_from base acc ds)
unfolding parse_digits
parse_digits-chars base acc [] b h = refl
parse_digits-chars base acc (d ∷ ds) b (small, h) =
    let below : ltb d.0 base ≡ true = ground (arith, small) in
    rw (digit_value-char_of d (omega (arith, b, small)), below, parse_digits)
      (parse_digits-chars base (acc * base + d.0) ds b h)

parse_part_in-chars :
    (base : ℕ) (d : Digit) (ds : Digits)
    → base ≤ 16
    → All (λ d. d.0 < base) (d ∷ ds)
    → value_from base 0 (d ∷ ds) ≤ max_uint32
    → parse_part_in base (chars (d ∷ ds)) ≡ some (value_from base 0 (d ∷ ds))
unfolding parse_part_in
parse_part_in-chars base d ds b h m =
    let fits : ltb max_uint32 (value_from base 0 (d ∷ ds)) ≡ false = ground (arith, m) in
    rw (parse_digits-chars base 0 (d ∷ ds) b h, fits, parse_part_in) refl

parse_ipv4_part-text_of : (p : Part) → IsPart p → parse_ipv4_part (text_of p) ≡ some (value_of p)
unfolding parse_ipv4_part
parse_ipv4_part-text_of (decimal []) h = absurd (omega (arith, h.some_digit))
parse_ipv4_part-text_of (decimal (d ∷ [])) h =
    parse_part_in-chars 10 d [] (omega arith) h.below h.fits
parse_ipv4_part-text_of (decimal (d ∷ e ∷ ds)) h =
    let first : (char_of d == 48) ≡ false = ground (arith, h.leading, h.below.0) in
    rw first (parse_part_in-chars 10 d (e ∷ ds) (omega arith) h.below h.fits)
parse_ipv4_part-text_of (octal []) h = absurd (omega (arith, h.some_digit))
parse_ipv4_part-text_of (octal (d ∷ ds)) h =
    let low : (char_of d == 120) ≡ false = ground (arith, h.below.0) in
    let high : (char_of d == 88) ≡ false = ground (arith, h.below.0) in
    rw (low, high) (parse_part_in-chars 8 d ds (omega arith) h.below h.fits)
parse_ipv4_part-text_of (hexadecimal capital []) h = absurd (omega (arith, h.some_digit))
parse_ipv4_part-text_of (hexadecimal true (d ∷ ds)) h =
    parse_part_in-chars 16 d ds (omega arith) h.below h.fits
parse_ipv4_part-text_of (hexadecimal false (d ∷ ds)) h =
    parse_part_in-chars 16 d ds (omega arith) h.below h.fits

-- A text without a dot.
abbrev NoDot : List ℕ → Type 0
NoDot t = All (λ b. (b == 46) ≡ false) t

chars-NoDot : (ds : Digits) → NoDot (chars ds)
chars-NoDot [] = tt
chars-NoDot ((d, true) ∷ ds) = (ground arith, chars-NoDot ds)
chars-NoDot ((d, false) ∷ ds) = (ground arith, chars-NoDot ds)

text_of-NoDot : (p : Part) → NoDot (text_of p)
text_of-NoDot (decimal ds) = chars-NoDot ds
text_of-NoDot (octal ds) = (refl, chars-NoDot ds)
text_of-NoDot (hexadecimal true ds) = (refl, (refl, chars-NoDot ds))
text_of-NoDot (hexadecimal false ds) = (refl, (refl, chars-NoDot ds))

split_at-NoDot : (t : List ℕ) → NoDot t → split_at 46 t ≡ t ∷ []
unfolding split_at
split_at-NoDot [] h = refl
split_at-NoDot (b ∷ bs) (e, h) = rw (e, split_at-NoDot bs h, split_at) refl

split_at-append : (t more : List ℕ) → NoDot t → split_at 46 (t ++ 46 ∷ more) ≡ t ∷ split_at 46 more
unfolding split_at
split_at-append [] more h = refl
split_at-append (b ∷ bs) more (e, h) = rw (e, split_at-append bs more h, split_at) refl

split_at-spelled :
    (p : Part) (ps : List Part) → split_at 46 (spelled (p ∷ ps)) ≡ map text_of (p ∷ ps)
split_at-spelled p [] = split_at-NoDot (text_of p) (text_of-NoDot p)
split_at-spelled p (q ∷ ps) =
    split_at-append (text_of p) (spelled (q ∷ ps)) (text_of-NoDot p)
    ∙ ap (λ l. text_of p ∷ l) (split_at-spelled q ps)

parse_parts-texts :
    (ps : List Part) → All IsPart ps → parse_parts (map text_of ps) ≡ some (map value_of ps)
unfolding parse_parts
parse_parts-texts [] h = refl
parse_parts-texts (p ∷ ps) (one, h) =
    rw (parse_ipv4_part-text_of p one, parse_parts-texts ps h, parse_parts) refl

pack-address : (m : ℕ) (ps : List Part) → Fits m ps → pack m (map value_of ps) ≡ some (address m ps)
unfolding pack
pack-address zero ps h = absurd h
pack-address (suc m) [] h = absurd h
pack-address (suc m) (p ∷ []) h =
    let small : ltb (value_of p) (256 ^ suc m) ≡ true = ground (arith, h) in rw small refl
pack-address (suc m) (p ∷ q ∷ ps) (byte, h) =
    let small : ltb 255 (value_of p) ≡ false = ground (arith, byte) in
    rw (small, pack-address m (q ∷ ps) h, pack) refl

parse_ipv4_numeric-spelled :
    (p : Part) (ps : List Part)
    → All IsPart (p ∷ ps)
    → Fits 4 (p ∷ ps)
    → parse_ipv4_numeric (spelled (p ∷ ps)) ≡ some (ipv4 (address 4 (p ∷ ps)))
parse_ipv4_numeric-spelled p ps h f =
    parse_ipv4_numeric-parts (spelled (p ∷ ps)) (map value_of (p ∷ ps)) (address 4 (p ∷ ps))
      (ap parse_parts (split_at-spelled p ps) ∙ parse_parts-texts (p ∷ ps) h)
      (pack-address 4 (p ∷ ps) f)

length-text_of : (p : Part) → IsPart p → 0 < length (text_of p)
length-text_of (decimal []) h = absurd (omega (arith, h.some_digit))
length-text_of (decimal (d ∷ ds)) h = omega arith
length-text_of (octal ds) h = omega arith
length-text_of (hexadecimal capital ds) h = omega arith

spelled-length : (p : Part) (ps : List Part) → IsPart p → (length (spelled (p ∷ ps)) == 0) ≡ false
spelled-length p [] h = ground (arith, length-text_of p h)
spelled-length p (q ∷ ps) h =
    ground (arith, length-text_of p h, length-append (text_of p) (46 ∷ spelled (q ∷ ps)))

module _ (parse_ip : List ℕ → Option ℕ) where
  numeric-kind :
      (h : List ℕ) (ip : ℕ)
      → parse_ip h ≡ none
      → parse_ipv4_numeric h ≡ some ip
      → is_loopback ip ≡ true
      → (length h == 0) ≡ false
      → (host : List ℕ) → bare_host host ≡ h
      → local_target_kind parse_ip host ≡ some loopback_numeric
  unfolding local_target_kind address_kind numeric_kind
  numeric-kind h ip literal read loop full host bare =
      ground (arith, literal, read, loop, full, bare)

  -- However an IPv4 address of the block 127.0.0.0/8 is written, in one to four parts and each of them
  -- in decimal, octal or hexadecimal, with small or capital letters, also in brackets, the configuration
  -- of a gateway that others can reach refuses it as a target, unless `net.ParseIP` reads the text.
  pub connect_self_reference-spelled :
      (host port : List ℕ) (listen : List ℕ × List ℕ) (p : Part) (ps : List Part)
      → All IsPart (p ∷ ps)
      → Fits 4 (p ∷ ps)
      → bare_host host ≡ spelled (p ∷ ps)
      → parse_ip (bare_host host) ≡ none
      → 127 * 2 ^ 24 ≤ address 4 (p ∷ ps)
      → address 4 (p ∷ ps) < 128 * 2 ^ 24
      → connect_self_reference parse_ip host port listen false ≡ some (names_local loopback_numeric)
  unfolding connect_self_reference
  connect_self_reference-spelled host port listen p ps h f bare literal low high =
      let a = address 4 (p ∷ ps) in
      let read : parse_ipv4_numeric (bare_host host) ≡ some (ipv4 a) =
        ap parse_ipv4_numeric bare ∙ parse_ipv4_numeric-spelled p ps h f in
      let loop : is_loopback (ipv4 a) ≡ true =
        is_loopback-ipv4 a (omega (arith, high)) ∙ ground (arith, low, high) in
      let full : (length (bare_host host) == 0) ≡ false =
        ap (λ t. length t == 0) bare ∙ spelled-length p ps h.0 in
      rw
        (
          numeric-kind (bare_host host) (ipv4 a) literal read loop full host refl,
          connect_self_reference,
        )
        refl
