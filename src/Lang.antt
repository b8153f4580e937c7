-- ===== src/Lang.antt =====
-- What every package of the repository is written in: errors, results, actions on the state that a
-- handler is given, values of `interface{}`, and the parts of Go's strings and strconv in use.
pub mod Error
pub mod Result
pub mod Int64
pub mod Exec
pub mod Value
pub mod Strings
pub mod Strconv
