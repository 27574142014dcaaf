-- ===== src/Api.antt =====
-- The server-side proxies to the backend: orbynadmin's lib/{chat,ledger,admin,dashboard}-api.ts and
-- the Builder's application's lib/{chat,scenario,evaluation}-api.ts. Texts that become part of a URL
-- are their UTF-8 bytes.
pub mod Uri
pub mod Fetch
pub mod Chat
pub mod BuilderChat
pub mod Ledger
pub mod Admin
pub mod Scenario
pub mod Evaluation
pub mod Routes
pub mod Dots
mod Tests
