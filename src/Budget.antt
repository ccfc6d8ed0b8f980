-- ===== src/Budget.antt =====
-- The account budgets (src/account_budget.rs): `Flows` is the flow key, `Event` the accounting of one
-- packet and the maintenance.
pub mod Flows
pub mod Event
