-- ===== src/Go.antt =====
-- What the program uses of the Go language and its standard library.
pub mod Text
pub mod Int
pub mod Float
pub mod Channel
pub mod Retry
