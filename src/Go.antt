-- ===== src/Go.antt =====
-- What the program uses of Go's standard library.
pub mod Sort
pub mod Strings
pub mod Strconv
