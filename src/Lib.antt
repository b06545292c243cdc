-- ===== src/Lib.antt =====
-- The core of the New Relic Node.js agent: what it measures, how it names it, and how it keeps it
-- between two sends to the collector.
--
-- An instrumented request is a transaction. Its timer (lib/timer.js) measures it, its name state
-- (lib/transaction/name-state.js) builds its name while the request is routed, and its measurements
-- go to a metric collection (lib/metrics/index.js), which keeps a summary (lib/stats) by name and
-- scope. When the transaction ends its collection is merged into the agent's. Events go to event
-- aggregators (lib/aggregators), each with a bounded reservoir (lib/priority-queue.js); the
-- harvester starts their timers, a send takes what is stored, and a failed send gives it back. Labels
-- from the configuration (lib/util/label-parser.js) are sent with the connection, and a filter
-- (lib/config/attribute-filter.js) decides where each attribute (lib/attributes) may go. Slow database
-- queries are sampled (lib/db), a trace goes on in other services by its header
-- (lib/w3c/traceparent.js), and the collector's answers (lib/collector) steer the agent.
--
-- - Shared: names of the library, natural and integer tests, lists, text and dictionaries.
-- - PriorityQueue: lib/priority-queue.js over an interface of the heap package (HeapLib), whose
--   documented laws are its fields. ListHeap fills the interface. `add`, `_replace`, `merge` of an
--   array and of a queue, `setLimit` are `add`, `replace`, `merge_events`, `merge_queue` and
--   `set_limit`. Priorities are natural numbers; the random priority is the argument `roll`.
--   The loops of `merge` and `setLimit` take as many rounds as the heap has nodes.
-- - Stats and Stats/Apdex: lib/stats/index.js and lib/stats/apdex.js over the integers.
-- - Metrics: lib/metrics/index.js, its two maps as dictionaries; names are strings, and the
--   normalizer and mapper that it calls are the record Naming.
-- - Aggregators/Base: lib/aggregators/base-aggregator.js and the start of lib/harvester.js.
-- - Aggregators/Event: lib/aggregators/event-aggregator.js with the send of the base aggregator. A
--   TypeError is `none`. The payload sent stays beside the aggregator until the response comes.
-- - Timer: lib/timer.js; the readings of the clocks are arguments of each call.
-- - NameState: lib/transaction/name-state.js; text is a list of UTF-16 code units, and the platform's
--   upper-casing is an argument.
-- - LabelParser: lib/util/label-parser.js; its two unbounded loops run on fuel. One round more than
--   there are pieces is enough wherever the loops end at all.
-- - AttributeFilter: lib/config/attribute-filter.js. A bit field is the function that says which of its
--   bits are set; what the regular expressions built from the rules match is the record Matcher. A
--   TypeError is `none`.
-- - SlowQueries: lib/db/query-trace-aggregator.js and lib/db/query-sample.js. The map of samples is a
--   dictionary; durations are whole numbers. A slow query comes with its normalized text.
-- - Traceparent: lib/w3c/traceparent.js. An exception is a value of the left side of a sum.
-- - ByteLimit: lib/util/byte-limit.js. The loop of `truncate` runs on fuel; three rounds for each byte
--   of the limit, and three, are enough.
-- - Attributes: lib/attributes/index.js, with the memo of each cut value in the state.
-- - Prioritized: lib/attributes/prioritized.js, with the cache of the last index for each priority.
-- - Collector: lib/collector/response.js and, of lib/collector/api.js, the table of status codes and
--   `_retry`. The answers of the server are a list, so an attempt is a step over it.
-- - Trace: of lib/transaction/trace, `_mergeSortedRanges`, `_mergeRanges` and `_computeTotalTime` of
--   index.js, and `calculateExclusiveDuration` of segment.js. The tree of segments is a forest of
--   first child and next sibling. Times are whole numbers; the loop of `_mergeRanges` takes one range
--   in a round, so the sum of both lengths is enough fuel.
-- - PartialTrace: lib/transaction/trace/partial-trace.js with `applyPartialTraceRules` and
--   `getEntityGroup` of lib/spans/span-event.js. Spans and Rules are the adding of a span,
--   Reparenting, Compaction and Finalizing the rest. The loop of `maybeReparentSpan` takes as many
--   rounds as there are dropped spans, which is the bound that the code gives it. Times are whole.
-- - Streamers: lib/spans/base-span-streamer.js with its subclasses in span-streamer.js (Single) and
--   batch-span-streamer.js (Batch). The answers of the stream to the writes are a function of how many
--   went before. The loop of the batches takes as many rounds as the queue has spans.
-- - Sampler: lib/samplers/adaptive-sampler.js and lib/samplers/sampler.js, with rolls in millionths and
--   thresholds as fractions.
-- - SlowTraces: lib/transaction/trace/aggregator.js, with times in whole milliseconds.
-- - Aggregators/Event/Cycles: the same aggregator with any number of sends on the way, as a run over
--   a list of happenings.
--
-- Not modelled: floating-point rounding, logging, events between the agent's objects, promises,
-- network, instrumentation of other packages, and the components that no file above names.
mod Shared
pub mod PriorityQueue
pub mod Stats
pub mod Metrics
pub mod Aggregators
pub mod Timer
pub mod NameState
pub mod LabelParser
pub mod AttributeFilter
pub mod Traceparent
pub mod SlowQueries
pub mod ByteLimit
pub mod Attributes
pub mod Collector
pub mod Trace
pub mod PartialTrace
pub mod Streamers
pub mod Sampler
pub mod SlowTraces
pub mod Prioritized
