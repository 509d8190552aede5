-- ===== src/Examples.antt =====
-- Concrete runs of the modelled code: the theorems applied at inputs that meet their conditions.
mod Rotation
mod Circuit
mod KeyPool
mod ProbeLimiter
mod Selection
mod FairShare
mod VendorError
mod BudgetAdvisory
mod PiiRoute
mod Usage
mod Gateway
mod Proxy
mod Connect
mod SmartRoute
mod Config
mod Wire
mod Secrets
mod Startup
mod RouterConfig
mod Router
mod Overlap
