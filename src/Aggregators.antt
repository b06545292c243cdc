-- ===== src/Aggregators.antt =====
-- lib/aggregators and lib/harvester.js: what the aggregators share.
pub mod Base
pub mod Event
mod Tests
