-- ===== src/ExParser.antt =====
-- src/ex_parser.rs: ExLineParser. The parser is the rest of the line from its cursor on, and the
-- cursor in bytes; a method is a function from the parser to its result and the parser behind it.
pub mod Cursor
pub mod Modifiers
pub mod Ranges
pub mod Parse
mod Scanning
pub mod Printing
mod Opening
mod RangeText
pub mod RoundTrip
mod Ends
mod Tests
