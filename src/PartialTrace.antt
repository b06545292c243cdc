-- ===== src/PartialTrace.antt =====
-- lib/transaction/trace/partial-trace.js and the rules of lib/spans/span-event.js that it applies.
-- Times are whole numbers of one fixed fraction of a second. Span links are left out.
mod Spans
mod Rules
mod Reparenting
mod Compaction
mod Finalizing
mod Ancestors
mod Durations
mod Ids
mod Groups
mod Rooted
mod Tests
