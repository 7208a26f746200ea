-- ===== src/Tests.antt =====
-- The theorems at concrete inputs, and runs of the model.
pub mod Budgets
pub mod Breakers
pub mod Stores
pub mod Wire
pub mod Requests
pub mod Draining
pub mod Hundredths
pub mod Files
pub mod Outside
pub mod Demo
pub mod Measures
pub mod Reconciling
pub mod Relaying
pub mod Starting
pub mod Harness
