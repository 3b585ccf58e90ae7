-- ===== src/Build.antt =====
-- build.c: the rows of the tables, field by field.
pub mod Config
pub mod Fields
pub mod Keys
pub mod Parties
pub mod Parts
pub mod Orders
pub mod Dates
mod Tests
