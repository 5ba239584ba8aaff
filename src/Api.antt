-- ===== src/Api.antt =====
-- backend/internal/api: who may do what.
pub mod Authorization
pub mod Authentication
pub mod Login
pub mod Domains
pub mod Forwards
