-- ===== src/Js.antt =====
-- The built-in functions of the language that the scripts call: those on strings, and the two
-- that code and decode URI components. They are written out from the language's definition.
pub mod Text
pub mod Loop
pub mod Uri
pub mod Decimal
pub mod Number
