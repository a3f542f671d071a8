-- ===== src/Go.antt =====
-- The parts of Go and of its standard library that the program uses.
pub mod Errors
pub mod Act
pub mod Strings
pub mod Map
pub mod Encoding
pub mod Format
pub mod Time
pub mod Url
pub mod Json
pub mod Exit
