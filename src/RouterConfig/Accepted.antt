-- ===== src/RouterConfig/Accepted.antt =====
-- What holds of a configuration that LoadConfig returns.
use llm_cluster_router.Prelude.{
  ℕ, zero, suc, ◌≡◌, ◌≢◌, ◌≤◌, ◌⊎◌, refl, inl, inr, List, [], ◌∷◌, Option, none, some, Bool, true,
  false, not, ◌||◌, ◌==◌, length, All, Bool-cases, subst, arith, get_elem?,
}
use llm_cluster_router.Prelude.Int.{ℤ, pos, negsuc}
use llm_cluster_router.Prelude.Bytes.{bytes_eq, lower}
use llm_cluster_router.Prelude.Texts.{bytes_eq_sound, bytes_eq_refl}
use llm_cluster_router.RouterConfig.{
  LoadError, Defaults, HealthConfig, FairShareConfig, NodeConfig, positive_else, key_cooldown_of,
  text_else,
}
use llm_cluster_router.RouterConfig.Nodes.{
  are_auth_bytes, any_key, authorization_name, validate_auth_header, internal_class, customer_class,
  are_workloads, validate_workloads,
}
use llm_cluster_router.RouterConfig.Load.{
  is_negative, fill_defaults, fill_health, fill_fair_share, first_error,
}

abbrev pub IsPos : ℤ → Type 0
IsPos x = (n : ℕ) × (x ≡ pos (suc n))

abbrev pub IsNat : ℤ → Type 0
IsNat x = (n : ℕ) × (x ≡ pos n)

positive_else-IsPos : (d : ℕ) (x : ℤ) → IsPos (positive_else (suc d) x)
unfolding positive_else
positive_else-IsPos d (pos zero) = (d, ground arith)
positive_else-IsPos d (pos (suc n)) = (n, ground arith)
positive_else-IsPos d (negsuc n) = (d, refl)

not_negative : (x : ℤ) → is_negative x ≡ false → IsNat x
not_negative (pos n) h = (n, refl)
not_negative (negsuc n) h = absurd (ground (arith, h))

key_cooldown_of-IsNat : (x : ℤ) → IsNat (key_cooldown_of x)
unfolding key_cooldown_of
key_cooldown_of-IsNat (negsuc n) = (0, refl)
key_cooldown_of-IsNat (pos zero) = (300_000_000_000, ground arith)
key_cooldown_of-IsNat (pos (suc n)) = (suc n, ground arith)

-- The settings that bound what the router does are positive; the key cooldown may be 0.
pub record IsBounded (d : Defaults) : Type 0 where
  pub depth : IsPos d.max_queue_depth
  pub concurrency : IsPos d.max_concurrency
  pub request : IsPos d.request_timeout
  pub cooldown : IsNat d.key_cooldown
  pub size : IsPos d.max_body_size
  pub body : IsPos d.body_read_timeout
  pub threshold : IsPos d.circuit.threshold
  pub breaker : IsPos d.circuit.cooldown

pub fill_defaults-IsBounded : (d : Defaults) → IsBounded (fill_defaults d)
unfolding fill_defaults
fill_defaults-IsBounded d = record {
  depth = positive_else-IsPos 7 d.max_queue_depth;
  concurrency = positive_else-IsPos 1 d.max_concurrency;
  request = positive_else-IsPos 119_999_999_999 d.request_timeout;
  cooldown = key_cooldown_of-IsNat d.key_cooldown;
  size = positive_else-IsPos 1_048_575 d.max_body_size;
  body = positive_else-IsPos 14_999_999_999 d.body_read_timeout;
  threshold = positive_else-IsPos 4 d.circuit.threshold;
  breaker = positive_else-IsPos 29_999_999_999 d.circuit.cooldown;
}

-- The health loop has positive periods and thresholds, and a path; the live-probe settings may be 0.
pub record IsProbing (h : HealthConfig) : Type 0 where
  pub interval : IsPos h.interval
  pub timeout : IsPos h.timeout
  pub path : 1 ≤ length h.path
  pub unhealthy : IsPos h.unhealthy_threshold
  pub healthy : IsPos h.healthy_threshold
  pub live_interval : IsNat h.live_probe.interval
  pub live_burst : IsNat h.live_probe.burst

pub text_else-pos : (d x : List ℕ) → 1 ≤ length d → 1 ≤ length (text_else d x)
text_else-pos d [] h = h
text_else-pos d (b ∷ bs) h = ground arith

pub fill_health-IsProbing :
    (h : HealthConfig)
    → is_negative h.live_probe.interval ≡ false
    → is_negative h.live_probe.burst ≡ false
    → IsProbing (fill_health h)
unfolding fill_health
fill_health-IsProbing h p q = record {
  interval = positive_else-IsPos 14_999_999_999 h.interval;
  timeout = positive_else-IsPos 4_999_999_999 h.timeout;
  path = text_else-pos _ h.path (omega arith);
  unhealthy = positive_else-IsPos 2 h.unhealthy_threshold;
  healthy = positive_else-IsPos 0 h.healthy_threshold;
  live_interval = not_negative h.live_probe.interval p;
  live_burst = not_negative h.live_probe.burst q;
}

-- An enabled scheduler has a positive rate, window and burst.
abbrev IsFairFor : Bool → FairShareConfig → Type 0
IsFairFor true f = IsPos f.max_requests_per_user × IsPos f.window × IsPos f.burst
IsFairFor false f = Unit

abbrev pub IsFair : FairShareConfig → Type 0
IsFair f = IsFairFor f.enabled f

pub fill_fair_share-IsFair : (f : FairShareConfig) → IsFair (fill_fair_share f)
unfolding fill_fair_share
fill_fair_share-IsFair f = elim (Bool-cases f.enabled) [
  | inl e ↦ rw e (
    positive_else-IsPos 9 f.max_requests_per_user,
    positive_else-IsPos 59_999_999_999 f.window,
    positive_else-IsPos 2 f.burst,
  )
  | inr e ↦ rw e tt
]

-- What is a key that is not empty.
abbrev HasKey : NodeConfig → Type 0
HasKey n =
    (1 ≤ length n.api_key)
    ⊎ ((i : ℕ) × (k : List ℕ) × (get_elem? n.api_keys i ≡ some k) × (1 ≤ length k))

any_key-get_elem? :
    (ks : List (List ℕ))
    → any_key ks ≡ true
    → (i : ℕ) × (k : List ℕ) × (get_elem? ks i ≡ some k) × (1 ≤ length k)
unfolding any_key
any_key-get_elem? [] h = absurd (ground (arith, h))
any_key-get_elem? ([] ∷ ks) h =
    let (i, k, at, some_byte) = any_key-get_elem? ks (ground (arith, h)) in
    (suc i, k, at, some_byte)
any_key-get_elem? ((b ∷ bs) ∷ ks) h = (0, b ∷ bs, refl, omega arith)

key_of : (n : NodeConfig) → (not (length n.api_key == 0) || any_key n.api_keys) ≡ true → HasKey n
key_of n h = elim (Bool-cases (any_key n.api_keys)) [
  | inl e ↦ inr (any_key-get_elem? n.api_keys e)
  | inr e ↦ inl (ground (arith, e, h))
]

-- A credential header is not Authorization, has letters, digits and dashes only, and has a key.
abbrev HeaderFor : Bool → NodeConfig → Type 0
HeaderFor true n = Unit
HeaderFor false n =
    (lower n.auth_header ≢ authorization_name) × (are_auth_bytes n.auth_header ≡ true) × HasKey n

abbrev pub HasSoundHeader : NodeConfig → Type 0
HasSoundHeader n = HeaderFor (length n.auth_header == 0) n

pub validate_auth_header-HasSoundHeader :
    (n : NodeConfig) → validate_auth_header n ≡ none → HasSoundHeader n
unfolding validate_auth_header
validate_auth_header-HasSoundHeader n h = elim (Bool-cases (length n.auth_header == 0)) [
  | inl e ↦ rw e tt
  | inr e ↦ elim (Bool-cases (bytes_eq (lower n.auth_header) authorization_name)) [
    | inl e' ↦ absurd (ground (arith, rw (e, e') at h))
    | inr e' ↦ elim (Bool-cases (are_auth_bytes n.auth_header)) [
      | inr e'' ↦ absurd (ground (arith, rw (e, e', e'') at h))
      | inl e'' ↦ elim (Bool-cases (not (length n.api_key == 0) || any_key n.api_keys)) [
        | inr f ↦ absurd (ground (arith, rw (e, e', e'', f) at h))
        | inl f ↦ rw e (
          (λ same.
              let equal : bytes_eq (lower n.auth_header) authorization_name ≡ true =
                subst (λ x. bytes_eq (lower n.auth_header) x ≡ true) same
                  (bytes_eq_refl (lower n.auth_header)) in
              absurd (cc)),
          e'',
          key_of n f,
        )
      ]
    ]
  ]
]

-- The classes of a node are known ones.
abbrev pub IsClass : List ℕ → Type 0
IsClass w = (w ≡ internal_class) ⊎ (w ≡ customer_class)

are_workloads-All : (ws : List (List ℕ)) → are_workloads ws ≡ true → All IsClass ws
unfolding are_workloads
are_workloads-All [] h = tt
are_workloads-All (w ∷ ws) h = elim (Bool-cases (bytes_eq w internal_class)) [
  | inl e ↦ (inl (bytes_eq_sound w internal_class e), are_workloads-All ws (rw e at h))
  | inr e ↦ elim (Bool-cases (bytes_eq w customer_class)) [
    | inl e' ↦ (inr (bytes_eq_sound w customer_class e'), are_workloads-All ws (rw (e, e') at h))
    | inr e' ↦ absurd (ground (arith, rw (e, e') at h))
  ]
]

pub validate_workloads-All :
    (n : NodeConfig) → validate_workloads n ≡ none → All IsClass n.workloads
unfolding validate_workloads
validate_workloads-All n h = elim (Bool-cases (are_workloads n.workloads)) [
  | inl e ↦ are_workloads-All n.workloads e
  | inr e ↦ absurd (ground (arith, rw e at h))
]

pub first_error-none : (a b : Option LoadError) → first_error a b ≡ none → (a ≡ none) × (b ≡ none)
first_error-none none b h = (refl, h)
first_error-none (some e) b h = absurd (ground (arith, h))
