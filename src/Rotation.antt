-- ===== src/Rotation.antt =====
-- Selection and accounting of a route's API keys: internal/channel/rotation.go and
-- internal/channel/rotation_store.go.
pub mod Types
pub mod Key
pub mod Policy
pub mod Route
pub mod Store
pub mod System
