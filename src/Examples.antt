-- ===== src/Examples.antt =====
-- Concrete runs of the model and of its theorems.
pub mod Wire
pub mod Transport
pub mod Links
pub mod Sessions
pub mod Messages
pub mod Handlers
pub mod Pdus
