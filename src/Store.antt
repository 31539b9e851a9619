-- ===== src/Store.antt =====
-- packages/persistence/src/chaosagent_persistence: the tables of models.py that the modelled methods
-- of repository.py read and write, its exceptions and validators, and the row operations.
pub mod Tables
pub mod Identifiers
pub mod Rows
pub mod Texts
