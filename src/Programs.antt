-- ===== src/Programs.antt =====
-- The main functions of the demo programs of rclc/, as the statements that call the library. What
-- lies between two calls sets message fields and is modelled with the callbacks, not here.
pub mod Topics
pub mod Services
pub mod Nodes
pub mod Runs
mod Tests
