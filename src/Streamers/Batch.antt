-- ===== src/Streamers/Batch.antt =====
-- lib/spans/batch-span-streamer.js: several spans in each write.
use node_newrelic.Streamers
use node_newrelic.Streamers.{Streamer, base_write, send, on_connected, on_disconnected, on_drain}
use node_newrelic.Streamers.Single.{◌>>=◌}
use node_newrelic.Shared.{
  ℕ, zero, suc, ◌-◌, ◌||◌, ◌==◌, Bool, true, false, Option, none, some, if◌then◌else◌, List, [],
  ◌∷◌, ◌++◌, take, drop, length, leb,
}
pub mod Chunks

-- The queue holds formatted spans; `time` is 0 until the first write.
pub record BatchStreamer (D : Type 0) : Type 0 where
  pub base : Streamer D (List D)
  pub time : ℕ
  pub batch_size : ℕ

abbrev pub queue_interval : ℕ
queue_interval = 5000

-- `data?.spans?.length || 1`
abbrev pub spans_in : {D : Type 0} → List D → ℕ
spans_in [] = 1
spans_in spans = length spans

module _ {D : Type 0} (accepts : ℕ → Bool) where
  -- The loop of `sendQueue`: one batch in each round.
  unfoldable pub send_loop :
      (fuel batch_size : ℕ) → Streamer D (List D) → Option (Streamer D (List D))
  send_loop zero batch_size s = some s
  send_loop (suc fuel) batch_size s = elim s.spans [
    | [] ↦ some s
    | span ∷ spans ↦ elim s.writable [
      | true ↦
          let batch = take batch_size (span ∷ spans) in
          send accepts (spans_in batch) batch (record s { spans = drop batch_size (span ∷ spans) })
          >>= send_loop fuel batch_size
      | false ↦ some s
    ]
  ]

  unfoldable pub send_queue : (batch_size : ℕ) → Streamer D (List D) → Option (Streamer D (List D))
  unfolding send_loop
  send_queue batch_size s = send_loop (length s.spans) batch_size s

module _ {D : Type 0} where
  unfoldable pub batch_ready : (curr_time : ℕ) → BatchStreamer D → Bool
  batch_ready curr_time s =
      leb s.batch_size (length s.base.spans) || leb queue_interval (curr_time - s.time)

module _ {S D : Type 0} (format : S → D) (accepts : ℕ → Bool) where
  unfoldable pub write : S → (curr_time : ℕ) → BatchStreamer D → Option (BatchStreamer D)
  unfolding send_queue batch_ready
  write span curr_time s =
      let timed = record s { time = if s.time == 0 then curr_time else s.time } in
      let base = base_write (format span) timed.base in
      let queued = record timed { base = record base { spans = base.spans ++ format span ∷ [] } } in
      let flushed = send_queue accepts queued.batch_size queued.base >>= λ sent.
      some (record queued { base = sent; time = curr_time }) in
      if base.writable
      then (if batch_ready curr_time queued then flushed else some queued)
      else some (record timed { base = base })
