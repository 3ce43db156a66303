-- ===== src/Numbers.antt =====
-- The standard library's conversions of text to integers, which the controller (`ss >> parsedValue`)
-- and the paths to variables (`stoi`) use, and decimal text, which clients send.
pub mod Digits
pub mod Read
