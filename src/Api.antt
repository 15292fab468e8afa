-- ===== src/Api.antt =====
-- The calls of the server: frontend/lib/services/core/api-client.ts, and the streamed chat run of
-- frontend/lib/services/admin/admin.service.ts.
pub mod Encoding
pub mod Fetching
pub mod Requests
pub mod Streaming
pub mod Queries
