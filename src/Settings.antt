-- ===== src/Settings.antt =====
-- Venue and table rules: src/domain/settings.ts.
pub mod Rules
pub mod Schema
pub mod Range
