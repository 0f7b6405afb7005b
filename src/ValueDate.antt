-- ===== src/ValueDate.antt =====
-- python/src/inspector/valuedate.py: which business day a file's contents represent.
pub mod Parse
pub mod Columns
pub mod Resolve
pub mod Split
