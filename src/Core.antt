-- ===== src/Core.antt =====
-- app/core: the errors, the database session of a request, the settings, cryptography, principals.
pub mod Errors
pub mod Session
pub mod Settings
pub mod Security
pub mod Principal
