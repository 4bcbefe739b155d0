-- ===== src/Vault.antt =====
-- src/vault: boards, sizes of results, sections of notes, regular expressions.
pub mod Canvas
pub mod Budget
pub mod Sections
pub mod SafeRegex
pub mod Links
pub mod Query
