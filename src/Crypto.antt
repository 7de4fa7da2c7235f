-- ===== src/Crypto.antt =====
-- Key wrapping: AES Key Wrap, and the padding and sealing of registration messages.
pub mod Squares
pub mod Bits
pub mod Powers
pub mod Words
pub mod Aeskw
