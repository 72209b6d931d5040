-- ===== src/Text.antt =====
-- mechanism/stringification.hpp: values as text in a buffer, and the texts of std::format that it and
-- the formatters of literal.h and error_struct.h use.
pub mod Number
pub mod Shape
pub mod Buffer
pub mod ToString
pub mod Render
pub mod Truncation
pub mod Writer
pub mod Correct
pub mod Printing
pub mod Object
pub mod Overrun
pub mod Units
pub mod Errors
pub mod Log
pub mod Dump
