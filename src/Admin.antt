-- ===== src/Admin.antt =====
-- The admin client (DID.WalletThesis/src/admin-client).
pub mod ApiError
pub mod Signer
pub mod Navigation
pub mod Auth
pub mod Guards
pub mod Interceptor
pub mod Blockchain
mod Tests
pub mod Universities
