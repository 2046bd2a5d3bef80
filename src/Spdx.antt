-- ===== src/Spdx.antt =====
-- SPDX license expressions: src/debcraft/domain/package_intelligence/, the files spdx_tokenizer.py,
-- spdx_parser.py and spdx_printer.py, and their value objects in values.py.
pub mod Values
pub mod Chars
pub mod Tokenizer
pub mod Parser
pub mod Printer
