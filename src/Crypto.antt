-- ===== src/Crypto.antt =====
-- The shared cryptography (internal/shared/crypto).
pub mod Keys
pub mod Charset
pub mod Wordlist
pub mod Generate
pub mod Passphrase
pub mod Derive
pub mod Coverage
pub mod Bias
pub mod Classes
pub mod Passwords
pub mod Returns
mod Tests
