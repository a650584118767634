-- ===== src/Js.antt =====
-- What the source uses of JavaScript and of Node: text, regular expressions, buffers, UTF-8 and
-- methods that throw.
pub mod Text
pub mod Regex
pub mod Effect
pub mod Fallible
pub mod Buffer
pub mod Utf8
pub mod Map
