-- ===== src/Router/Models.antt =====
-- `handleModels` of main.go: the models that a caller is told of.
use llm_cluster_router.Prelude.{List, [], ◌∷◌, ◌++◌, String, not, if◌then◌else◌}
use llm_cluster_router.Selection.{Node, contains, allows_class}

-- The inner loop: the models of a node that are not seen yet, which are seen from then on.
unfoldable pub add_models : List String → List String → List String
unfolding contains
add_models [] seen = seen
add_models (m ∷ ms) seen = add_models ms (if contains seen m then seen else seen ++ m ∷ [])

unfoldable pub models_from : String → List Node → List String → List String
unfolding allows_class add_models
models_from class_ [] seen = seen
models_from class_ (n ∷ ns) seen = models_from class_ ns (
    if not (allows_class n class_)
    then seen
    else if not n.healthy
    then seen
    else add_models n.models seen)

-- The ids of `handleModels`, in their order.
unfoldable pub list_models : String → List Node → List String
unfolding models_from
list_models class_ nodes = models_from class_ nodes []
