-- ===== src/Tests.antt =====
-- Concrete inputs: runs of the code, and an instance of each property with a hypothesis.
mod Fixtures
mod Exchange
mod Operations
mod Approvals
mod Entries
mod Suppliers
mod Histories
mod Accounts
