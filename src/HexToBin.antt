-- ===== src/HexToBin.antt =====
-- Application/HexToBin: converts an Intel HEX file to a binary.
pub mod Digits
pub mod Line
pub mod Record
pub mod Convert
pub mod Files
