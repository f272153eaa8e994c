-- ===== src/Schema.antt =====
-- The tables and documents that the modelled components read and write (apps/api/lsa/models.py).
-- Identifiers are texts and times are microseconds; the columns that hold a `datetime` are read
-- through `_aware`, so they carry no time zone of their own.
pub mod Action
pub mod Fleet
pub mod Findings
pub mod Plans
pub mod ChangeSets
pub mod Jobs
pub mod Database
