-- ===== src/Operations.antt =====
-- The business operations: src/domain/operations.ts. `Guards` has the tests and the audit, `Phone`
-- the phone numbers, `Entry` the validation and the posting of an entry, and the other modules one
-- function for each kind of command, which `Apply` puts together.
pub mod Guards
pub mod Phone
pub mod Calendar
pub mod Entry
pub mod Venue
pub mod Seating
pub mod Approvals
pub mod Days
pub mod Apply
pub mod Ensures
