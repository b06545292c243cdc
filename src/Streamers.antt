-- ===== src/Streamers.antt =====
-- lib/spans/base-span-streamer.js: a bounded queue of spans before a stream that may block. What the
-- stream answers to each write is an argument. The metrics other than the three counts are left out.
use node_newrelic.Shared.{
  ℕ, suc, ◌+◌, ◌≡◌, Bool, true, false, Option, none, some, if◌then◌else◌, List, [], ◌∷◌, ◌++◌,
  length, ltb,
}
pub mod Single
pub mod Batch
mod Tests

-- `Q` is what the queue holds, `W` what is written. Beside the fields of the code: what all streams
-- got, whether a drain listener waits at the stream, and the counts of the metrics.
pub record Streamer (Q W : Type 0) : Type 0 where
  pub stream : Bool
  pub writable : Bool
  pub queue_size : ℕ
  pub spans : List Q
  pub listening : Bool
  pub written : List W
  pub seen : ℕ
  pub sent : ℕ
  pub dropped : ℕ

module _ {Q W : Type 0} where
  unfoldable pub create : (queue_size : ℕ) → Streamer Q W
  create queue_size = record {
    stream = false;
    writable = false;
    queue_size = queue_size;
    spans = [];
    listening = false;
    written = [];
    seen = 0;
    sent = 0;
    dropped = 0;
  }

  -- `write` of the base class, with the item that `addToQueue` pushes.
  unfoldable pub base_write : Q → Streamer Q W → Streamer Q W
  base_write item s =
      let counted = record s { seen = s.seen + 1 } in
      if s.writable
      then counted
      else if ltb (length s.spans) s.queue_size
      then record counted { spans = s.spans ++ item ∷ [] }
      else record counted { dropped = s.dropped + 1 }

  -- `send`, of data that stands for so many spans; `none` is the TypeError of writing to no stream.
  unfoldable pub send : (accepts : ℕ → Bool) (amount : ℕ) → W → Streamer Q W → Option (Streamer Q W)
  send accepts amount item s =
      if s.stream
      then some (record s {
        writable = accepts (length s.written);
        written = s.written ++ item ∷ [];
        sent = s.sent + amount;
        listening = if accepts (length s.written) then s.listening else true;
      })
      else none

  -- The handlers of the connection, and `drain`, each with the subclass' `sendQueue`.
  unfoldable pub on_connected :
      (Streamer Q W → Option (Streamer Q W)) → Streamer Q W → Option (Streamer Q W)
  on_connected send_queue s = send_queue (record s { stream = true; writable = true })

  unfoldable pub drain :
      (Streamer Q W → Option (Streamer Q W)) → Streamer Q W → Option (Streamer Q W)
  drain send_queue s = send_queue (record s { writable = true })

  -- The connection takes the listeners off its stream when it ends it (lib/grpc/connection.js).
  unfoldable pub on_disconnected : Streamer Q W → Streamer Q W
  on_disconnected s = record s { stream = false; writable = false; listening = false }

  -- The stream calls the listener that waits, once.
  unfoldable pub on_drain :
      (Streamer Q W → Option (Streamer Q W)) → Streamer Q W → Option (Streamer Q W)
  unfolding drain
  on_drain send_queue s =
      if s.listening then drain send_queue (record s { listening = false }) else some s

-- What happens to a streamer.
pub data Happening (S : Type 0) : Type 0 where
  wrote : S → Happening S
  connected : Happening S
  disconnected : Happening S
  drained : Happening S
