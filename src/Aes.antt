-- ===== src/Aes.antt =====
-- The AES-CTR extension (src/librdrand-aes.c and its headers).
pub mod State
pub mod Power
pub mod Keys
pub mod Change
pub mod Buffers
pub mod Invariant
pub mod Defined
pub mod Encrypt
