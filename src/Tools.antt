-- ===== src/Tools.antt =====
-- src/tools: the tools of the server.
pub mod CallTracker
