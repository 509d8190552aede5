-- ===== src/Startup/Credentials.antt =====
-- That a gateway which starts has the credentials that it needs.
use llm_cluster_router.Config.Whole.{Config}
use llm_cluster_router.Startup.Server.{Server}
