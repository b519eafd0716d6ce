-- ===== src/Storage.antt =====
-- termin_server/storage.py and termin_server/providers/builtins/storage_sqlite.py.
pub mod Identifiers
pub mod Results
pub mod Predicates
pub mod Keyset
pub mod Query
pub mod Engine
pub mod Records
pub mod Listing
pub mod Creation
pub mod Schema
pub mod Tables
pub mod Migration
