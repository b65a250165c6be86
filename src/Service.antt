-- ===== src/Service.antt =====
-- crates/kms-service: the HTTP service. Its parts are modelled one file each; the children hold the
-- proofs.
pub mod Errors
pub mod Crypto
pub mod Acl
pub mod KeyCache
pub mod Iam
pub mod VhsmClient
pub mod CryptoService
pub mod RateLimiter
pub mod Security
