-- ===== src/Go.antt =====
-- The parts of Go's standard library that the program computes with, written from their documented
-- behaviour: `strings`, `strconv`, `fmt`, `net/netip`, `net`, `encoding/hex` and `encoding/base64`.
pub mod Strings
pub mod Strconv
pub mod Fmt
pub mod Netip
pub mod Encoding
pub mod Net
pub mod Channel
