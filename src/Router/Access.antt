-- ===== src/Router/Access.antt =====
-- Who may call, and with which class: ClassBearerAuthFunc and ClassFromRequest of
-- internal/proxy/helpers.go.
use llm_cluster_router.Prelude.{
  ℕ, List, [], ◌∷◌, ◌++◌, Option, none, some, String, Bool, true, false, not, ◌&&◌, ◌==◌,
  if◌then◌else◌, length,
}
use llm_cluster_router.Prelude.Bytes.{bytes_eq}
use llm_cluster_router.Startup.{bearer}

pub data WorkloadClass : Type 0 where
  class_internal class_customer : WorkloadClass

abbrev pub class_name : WorkloadClass → String
class_name class_internal = "internal"
class_name class_customer = "customer"

-- A request that is refused, or let through with the class in its context, if there is one.
pub data Access : Type 0 where
  unauthorized : Access
  let_in : Option WorkloadClass → Access

-- The loop over the customer tokens.
unfoldable pub is_customer : List (List ℕ) → List ℕ → Bool
unfolding bytes_eq
is_customer [] auth = false
is_customer (t ∷ ts) auth =
    if not (length t == 0) && bytes_eq auth (bearer ++ t) then true else is_customer ts auth

-- `ClassBearerAuthFunc`, for the internal token, the customers' and the Authorization header.
unfoldable pub class_bearer_auth : List ℕ → List (List ℕ) → List ℕ → Access
unfolding bytes_eq is_customer
class_bearer_auth internal customers auth =
    if length internal == 0 && length customers == 0
    then let_in none
    else if not (length internal == 0) && bytes_eq auth (bearer ++ internal)
    then let_in (some class_internal)
    else if is_customer customers auth
    then let_in (some class_customer)
    else unauthorized

-- `ClassFromRequest`.
unfoldable pub class_from_request : Option WorkloadClass → WorkloadClass
class_from_request none = class_internal
class_from_request (some c) = c
