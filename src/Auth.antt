-- ===== src/Auth.antt =====
-- src/auth: the token store, the token endpoint, the access-token check and the owner's secret.
pub mod Store
pub mod Owner
pub mod Token
pub mod Verifier
