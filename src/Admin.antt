-- ===== src/Admin.antt =====
-- src/admin/admin.service.ts: accounts, warnings, reports, categories, lists and the audit log. The
-- search of accounts and the texts of the answers are not modelled.
pub mod Audit
pub mod Accounts
pub mod Reports
pub mod Categories
pub mod Lists
