-- ===== src/Examples.antt =====
-- Runs of the code on a small screen, and each theorem with conditions at a concrete input.
pub mod Fixtures
pub mod Scrolling
pub mod Drawing
pub mod Control
pub mod Writing
pub mod Text
pub mod Enrolment
pub mod Connection
pub mod Frames
pub mod Session
pub mod Choice
pub mod Painting
pub mod Terminals
pub mod View
