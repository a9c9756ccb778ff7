-- ===== src/Semantic.antt =====
-- src/semantic_rules.cpp: the rules that every parsed line is checked by. A rule adds at most one
-- diagnostic, and returns right after it: it is a function from the line to that diagnostic.
pub mod Words
pub mod Motion
pub mod Shapes
pub mod Codes
pub mod Program
pub mod MotionWords
pub mod Scanning
pub mod Conflicts
pub mod Accepted
pub mod Additions
