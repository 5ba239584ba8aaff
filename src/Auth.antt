-- ===== src/Auth.antt =====
-- backend/internal/auth: the parts that are not calls of a cryptographic library.
pub mod LoginLimiter
