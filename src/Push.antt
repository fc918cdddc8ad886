-- ===== src/Push.antt =====
-- The Web Push backend: db/schema.ts, lib/push-repository.ts, lib/push-gateway.ts and
-- lib/push-server.ts, with the SQL functions of drizzle/ that the repository calls.
pub mod Tables
pub mod Budget
pub mod Delivery
pub mod Registration
pub mod Gateway
pub mod Cleanup
pub mod Repository
pub mod Exec
pub mod Server
pub mod Tests
