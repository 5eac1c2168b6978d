-- ===== src/Callbacks.antt =====
-- The callbacks of the small programs of rclc/ whose main functions are in Programs.
pub mod Counting
pub mod EpochTime
pub mod AddTwoInts
pub mod Fragments
pub mod ComplexMessages
pub mod GraphCounts
