-- ===== src/Go.antt =====
-- What the program uses of Go itself: `int32` arithmetic, `time.Time` and `time.Duration`, and
-- decimal numbers of `strconv` and `fmt`.
pub mod Int32
pub mod Time
pub mod Strconv
