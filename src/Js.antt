-- ===== src/Js.antt =====
-- JavaScript values, as `JSON.parse` and the callers of the program make them, and the operations
-- of the language that the program uses on them.
mod Values
mod Print
mod Equal
pub use Values.*
pub use Equal.*
unfoldable pub use Values.{to_text, strict_equal}
unfoldable pub use Print.{stringify, canonical_json, pretty_from}
