-- ===== src/Router.antt =====
-- router-legacy/router.py: the priority router in front of the inference backends.
pub mod Json
pub mod Backends
pub mod Requests
pub mod Routing
pub mod Traffic
pub mod Proxy
mod Tests
