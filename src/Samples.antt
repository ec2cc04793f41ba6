-- ===== src/Samples.antt =====
-- Values for the crates that the program uses, on which its functions can be run.
pub mod Json
pub mod Tiny
pub mod Codecs
pub mod Host
