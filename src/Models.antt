-- ===== src/Models.antt =====
-- backend/app/models: the tables. A row is a record, a column of an enumeration its data type; the
-- creation timestamps are left out where nothing reads them.
pub mod Enums
pub mod Identity
pub mod Ingestion
pub mod ApiKey
pub mod Connector
pub mod Chat
