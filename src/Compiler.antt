-- ===== src/Compiler.antt =====
-- foresee/compiler.py and foresee/signatures.py: the checker.
pub mod Signatures
pub mod State
pub mod Parts
pub mod Checker
pub mod Program
pub mod Accepts
pub mod Allowed
mod Tests
