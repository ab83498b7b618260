-- ===== src/Parsers.antt =====
-- app/parsers: the cursor over a blob and the two binary formats.
pub mod Buffer
pub mod Ssnt
pub mod Ssnv
