-- ===== src/Matrix.antt =====
-- matrix.py of the project server: reachability by ping, and validity of the AS paths.
pub mod Connectivity
pub mod Node
pub mod Checker
pub mod Validity
pub mod Prepare
