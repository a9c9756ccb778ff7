-- ===== src/Lower.antt =====
-- src/ail.cpp: the lowering of a program to AIL instructions, lowerToAil.
pub mod Numbers
pub mod Words
pub mod Axes
pub mod Subprograms
pub mod Blocks
pub mod Items
pub mod Lines
pub mod Program
pub mod Frame
pub mod WordAdditions
pub mod Additions
pub mod Open
pub mod Openings
pub mod Steps
pub mod Loop
pub mod Returns
pub mod Reasons
pub mod Waiting
