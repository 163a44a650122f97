-- ===== src/Provider.antt =====
-- internal/provider: the registry of providers and the routing between them.
pub mod Registry
pub mod Routing
