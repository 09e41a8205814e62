-- ===== src/Models.antt =====
-- controlplane/lmnradius/models.py: the records of an instance, and the validators of their fields.
pub mod Characters
pub mod Patterns
pub mod Types
pub mod Network
pub mod Fields
pub mod Valid
pub mod Subnets
pub mod Requests
pub mod Urls
