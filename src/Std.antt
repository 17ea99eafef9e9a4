-- ===== src/Std.antt =====
-- What the program uses of Go's standard library: strings, strconv, net and sort, and its maps.
pub mod Strings
pub mod Strconv
pub mod Net
pub mod Map
pub mod Sort
pub mod Json
mod Tests
