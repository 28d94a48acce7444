-- ===== src/Governance.antt =====
-- apps/api/app/governance: proposals, their workflow and who may move it.
pub mod Types
pub mod Records
pub mod Authorization
pub mod Content
pub mod Evidence
pub mod Workflow
pub mod Drafting
pub mod Deciding
pub mod Lifecycle
pub mod Grants
pub mod Approval
pub mod Liquidity
pub mod Tests
