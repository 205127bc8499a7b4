-- ===== src/Crypto.antt =====
-- crypto/: the codecs, the hashes and the arithmetic of signature checks.
pub mod Base64
pub mod Block
pub mod Sha256
pub mod Md5
pub mod Bigint
