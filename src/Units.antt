-- ===== src/Units.antt =====
-- The data of units (src/units/*.rs).
pub mod Enums
pub mod Sections
pub mod Defaults
pub mod Kinds
pub mod Words
mod Tests
pub mod Names
pub mod Templates
pub mod Made
pub mod Fields
