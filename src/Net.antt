-- ===== src/Net.antt =====
-- net/: requests and responses in JSON, and the server that answers requests.
pub mod Json
pub mod Request
pub mod Response
pub mod Server
mod Sample
mod Tests
