-- ===== src/Wallet.antt =====
-- The mobile wallet (DID.WalletThesis/src/mobile-wallet).
pub mod Storage
pub mod Pin
pub mod Account
pub mod Lookup
pub mod Bridge
pub mod Zkp
pub mod Presentation
pub mod History
pub mod Consent
pub mod Incoming
pub mod Keypad
pub mod Did
pub mod Registration
pub mod Unlock
pub mod Credentials
pub mod Editing
pub mod Verifiers
