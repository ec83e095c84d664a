-- ===== src/Text.antt =====
-- snail/common: texts, as lists of character codes.
pub mod Codes
pub mod Trim
