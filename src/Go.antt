-- ===== src/Go.antt =====
-- What the model uses of the Go language and its standard library: values with an error or a panic,
-- methods that change a state, and the functions of `strings`, `fmt` and `regexp` that the code
-- calls.
pub mod Result
pub mod Action
pub mod Strings
pub mod Fmt
pub mod Regexp
