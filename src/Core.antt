-- ===== src/Core.antt =====
-- airstore/core: the data models, hashing, encryption, chunking and erasure coding.
pub mod Models
pub mod Exec
pub mod Formatting
pub mod Float
pub mod Hashing
pub mod Encryption
pub mod Chunking
pub mod Erasure
