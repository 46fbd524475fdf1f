-- ===== src/Proxy.antt =====
-- internal/proxy: the headers, the filters, the recording of requests and responses in a root, and
-- the handler that answers a request.
pub mod Header
pub mod Request
pub mod Filter
pub mod Store
pub mod Serve
pub mod Auth
pub mod Connect
