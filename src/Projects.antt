-- ===== src/Projects.antt =====
-- Research projects: their members, what a member may do, and the records of their governance
-- (backend/apps/projects/{models,access_services,decision_risk_services}.py).
pub mod Model
pub mod Access
pub mod Governance
pub mod Execution
pub mod Members
mod Tests
