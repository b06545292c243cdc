-- ===== src/Streamers/Single.antt =====
-- lib/spans/span-streamer.js: one span in each write.
use node_newrelic.Streamers
use node_newrelic.Streamers.{
  Streamer, Happening, wrote, connected, disconnected, drained, base_write, send, on_connected,
  on_disconnected, on_drain,
}
use node_newrelic.Shared.{
  ℕ, ◌≡◌, Bool, true, false, Option, none, some, if◌then◌else◌, List, [], ◌∷◌, ◌++◌,
}
pub mod Flushing
mod Writing
pub mod Flow

infixl 5 ◌>>=◌
abbrev pub ◌>>=◌ : {A B : Type 0} → Option A → (A → Option B) → Option B
none >>= f = none
some a >>= f = f a

module _ {S D : Type 0} (format : S → D) (accepts : ℕ → Bool) where
  -- The loop of `sendQueue` over what the queue holds.
  unfoldable pub send_loop : List S → Streamer S D → Option (Streamer S D)
  send_loop [] s = some (record s { spans = [] })
  send_loop (span ∷ spans) s = elim s.writable [
    | true ↦ do s' ← send accepts 1 (format span) s; send_loop spans s'
    | false ↦ some (record s { spans = span ∷ spans })
  ]

  unfoldable pub send_queue : Streamer S D → Option (Streamer S D)
  unfolding send_loop
  send_queue s = send_loop s.spans s

  -- `write` catches what `send` throws.
  unfoldable pub write : S → Streamer S D → Streamer S D
  write span s =
      let s' = base_write span s in
      if s'.writable
      then elim (send accepts 1 (format span) s') [ none ↦ s' | some s'' ↦ s'' ]
      else s'

  unfoldable pub step : Happening S → Streamer S D → Option (Streamer S D)
  unfolding write send_queue
  step (wrote span) s = some (write span s)
  step connected s = on_connected send_queue s
  step disconnected s = some (on_disconnected s)
  step drained s = on_drain send_queue s

  unfoldable pub run : List (Happening S) → Streamer S D → Option (Streamer S D)
  unfolding step
  run [] s = some s
  run (happening ∷ happenings) s = do s' ← step happening s; run happenings s'
