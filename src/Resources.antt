-- ===== src/Resources.antt =====
-- Shared laboratory resources: backend/apps/resources/{models,services}.py.
pub mod Model
pub mod State
pub mod Effects
pub mod Access
pub mod Capacity
pub mod Booking
pub mod Inventory
pub mod Operations
mod Tests
