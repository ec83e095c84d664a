-- ===== src/Server.antt =====
-- snail/server/detail: how the requests on documents are scheduled, and what is kept for a document.
pub mod Scheduler
pub mod Storage
