-- ===== src/Files.antt =====
-- The parsers of the platform's files, in utils/parsers.py.
pub mod Clean
pub mod Sort
pub mod Connections
pub mod Public
pub mod Tables
pub mod Json
