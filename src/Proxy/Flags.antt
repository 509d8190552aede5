-- ===== src/Proxy/Flags.antt =====
-- What no step of the failover of main.go changes of the nodes.
use llm_cluster_router.Prelude.{
  ℕ, zero, suc, ◌+◌, ◌≡◌, ◌<◌, refl, ap, List, [], ◌∷◌, some, Bool, map, get_elem?, modify, All,
  some_inj, arith,
}
use llm_cluster_router.Prelude.Int.{ℤ}
use llm_cluster_router.Selection.{Node, Query, consult, visit}
use llm_cluster_router.Selection.Choice.{Weighted}

-- What no attempt changes of a node.
abbrev pub flag : Node → Bool × ℕ
flag n = (n.pii_local, n.weight)

abbrev pub flags : List Node → List (Bool × ℕ)
flags ns = map flag ns

consult-flag : (now : ℕ) (q : Query) (n : Node) → flag (consult now q n).0 ≡ flag n
unfolding consult
consult-flag now q n = ground arith

pub visit-flags :
    (now : ℕ) (q : Query) (i : ℕ) (ns : List Node) (bs : List (ℤ × List ℕ))
    → flags (visit now q i ns bs).0 ≡ flags ns
unfolding visit
visit-flags now q i [] bs = refl
visit-flags now q i (n ∷ ns) bs =
    rw (consult-flag now q n) (ap (λ fs. flag n ∷ fs) (visit-flags now q (i + 1) ns _))

pub modify-flags :
    (ns : List Node) (i : ℕ) (f : Node → Node)
    → ((n : Node) → flag (f n) ≡ flag n)
    → flags (modify ns i f) ≡ flags ns
modify-flags [] i f same = refl
modify-flags (n ∷ ns) zero f same = ap (λ x. x ∷ flags ns) (same n)
modify-flags (n ∷ ns) (suc i) f same = ap (λ fs. flag n ∷ fs) (modify-flags ns i f same)

pub flags-Weighted : (ns : List Node) → All (λ f. 0 < f.1) (flags ns) → Weighted ns
flags-Weighted [] w = tt
flags-Weighted (n ∷ ns) w = (w.0, flags-Weighted ns w.1)

pub Weighted-flags : (ns : List Node) → Weighted ns → All (λ f. 0 < f.1) (flags ns)
Weighted-flags [] w = tt
Weighted-flags (n ∷ ns) w = (w.0, Weighted-flags ns w.1)

pub get_elem?-flags :
    (ns : List Node) (i : ℕ) (f : Bool × ℕ)
    → get_elem? (flags ns) i ≡ some f
    → (n : Node) × (get_elem? ns i ≡ some n) × (flag n ≡ f)
get_elem?-flags [] i f h = ground arith
get_elem?-flags (n ∷ ns) zero f h = (n, refl, some_inj h)
get_elem?-flags (n ∷ ns) (suc i) f h = get_elem?-flags ns i f h
