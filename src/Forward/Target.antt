-- ===== src/Forward/Target.antt =====
-- Where a request goes upstream.
use llm_cluster_router.Prelude.{
  ℕ, ◌≡◌, refl, ap, List, [], ◌∷◌, ◌++◌, true, Bool-cases, inl, inr, ◌==◌, length, drop, arith,
  if◌then◌else◌,
}
use mathlib.Core.List.{append_assoc, append-nil}
use llm_cluster_router.Prelude.Bytes.{starts_with, trim_suffix}
use llm_cluster_router.Config.Route.{RouteConfig}
use llm_cluster_router.Forward.{trim_slashes, upstream_path, target_url}

starts_with-append : (p rest : List ℕ) → starts_with (p ++ rest) p ≡ true
unfolding starts_with
starts_with-append [] [] = refl
starts_with-append [] (r ∷ rest) = refl
starts_with-append (b ∷ bs) rest = ground (arith, starts_with-append bs rest)

drop-append : (p rest : List ℕ) → drop (length p) (p ++ rest) ≡ rest
drop-append [] rest = refl
drop-append (b ∷ bs) rest = drop-append bs rest

trim_suffix-slash : (p : List ℕ) → trim_suffix 47 (p ++ 47 ∷ []) ≡ p
unfolding trim_suffix
trim_suffix-slash [] = refl
trim_suffix-slash (b ∷ []) = refl
trim_suffix-slash (b ∷ c ∷ bs) = ap (◌∷◌ b) (trim_suffix-slash (c ∷ bs))

starts_with-nil : (rest : List ℕ) → starts_with rest [] ≡ true
unfolding starts_with
starts_with-nil [] = refl
starts_with-nil (r ∷ rest) = refl

starts_with-slash : (rest : List ℕ) → starts_with (47 ∷ rest) (47 ∷ []) ≡ true
unfolding starts_with
starts_with-slash rest = starts_with-nil rest

upstream_path-slash :
    (p rest : List ℕ) → upstream_path (p ++ 47 ∷ []) ((p ++ 47 ∷ []) ++ rest) ≡ 47 ∷ rest
unfolding upstream_path
upstream_path-slash p rest = rw (trim_suffix-slash p) (
    rw (append_assoc p (47 ∷ []) rest) (
      rw (starts_with-append p (47 ∷ rest))
        (rw (drop-append p (47 ∷ rest)) (rw (starts_with-slash rest) refl))))

-- A path behind the prefix of its route, which ends in a slash, goes to the upstream with one slash in
-- front: the prefix is taken off, whatever follows it, and so are the slashes at the end of the upstream.
pub target_url-strips :
    (r : RouteConfig) (p rest query : List ℕ)
    → r.prefix ≡ p ++ 47 ∷ []
    → target_url r (r.prefix ++ rest) query
      ≡ trim_slashes r.upstream ++ ((47 ∷ rest) ++ (if length query == 0 then [] else 63 ∷ query))
unfolding target_url
target_url-strips r p rest query h =
    let path : upstream_path r.prefix (r.prefix ++ rest) ≡ 47 ∷ rest =
      rw h (upstream_path-slash p rest) in
    elim (Bool-cases (length query == 0)) [
      | inl e ↦ rw (path, e, append-nil rest) refl
      | inr e ↦ rw (path, e, append_assoc (trim_slashes r.upstream) (47 ∷ rest) (63 ∷ query)) refl
    ]
