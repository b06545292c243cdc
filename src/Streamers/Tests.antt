-- ===== src/Streamers/Tests.antt =====
-- lib/spans: streams that block after some writes.
use node_newrelic.Streamers.{Streamer, Happening, wrote, connected, disconnected, drained, create}
use node_newrelic.Streamers.Single.{run}
use node_newrelic.Streamers.Single.Flushing.{Sound}
use node_newrelic.Streamers.Single.Flow.{offers, run-Sound}
use node_newrelic.Streamers.Batch.{send_queue}
use node_newrelic.Streamers.Batch.Chunks.{Chunked, send_queue-Chunked}
use node_newrelic.Shared.{ℕ, suc, ◌≡◌, refl, Bool, true, false, some, List, [], ◌∷◌, arith, ltb}

-- The second write and no other fills the stream.
abbrev second_blocks : ℕ → Bool
second_blocks n = ltb n 1

abbrev busy_day : List (Happening ℕ)
busy_day = wrote 1 ∷ wrote 2 ∷ wrote 3 ∷ connected ∷ wrote 4 ∷ wrote 5 ∷ drained ∷ disconnected ∷ []

run-Sound_example :
    (s : Streamer ℕ ℕ) × (run suc second_blocks busy_day (create 2) ≡ some s)
    × Sound suc second_blocks 2 (offers suc second_blocks busy_day) s
run-Sound_example = run-Sound suc second_blocks 2 busy_day

abbrev full_batch : Streamer ℕ (List ℕ)
full_batch = record {
  stream = true;
  writable = true;
  queue_size = 10;
  spans = 1 ∷ 2 ∷ 3 ∷ 4 ∷ 5 ∷ [];
  listening = false;
  written = [];
  seen = 5;
  sent = 0;
  dropped = 0;
}

send_queue-Chunked_example :
    (s : Streamer ℕ (List ℕ)) × (send_queue second_blocks 2 full_batch ≡ some s)
    × Chunked 2 full_batch s
send_queue-Chunked_example = send_queue-Chunked second_blocks 2 full_batch (omega arith) refl
