-- ===== src/Relations.antt =====
-- src/common/relations/fk-expansion.service.ts: ids in responses are replaced by what they refer to.
pub mod Rules
pub mod Entities
pub mod Expand
