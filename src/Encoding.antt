-- ===== src/Encoding.antt =====
-- How Node writes bytes and whole numbers as text: `toString('hex')`, `Buffer.from(s, 'hex')`, and
-- a number in a template.
pub mod Hex
pub mod Decimal
pub mod Utf8
