-- ===== src/Streamers/Batch/Chunks.antt =====
-- lib/spans/batch-span-streamer.js: the batches of `sendQueue`.
use mathlib.Core.List.{append_assoc, append-nil}
use node_newrelic.Streamers.{Streamer, send}
use node_newrelic.Streamers.Batch.{send_loop, send_queue, spans_in}
use node_newrelic.Streamers.Single.{◌>>=◌}
use node_newrelic.Shared.{
  ℕ, zero, suc, ◌+◌, ◌≤◌, ◌<◌, ◌≡◌, refl, sym, ap, ap₂, ◌∙◌, inl, inr, Bool, true, false, Option,
  none, some, if◌then◌else◌, List, [], ◌∷◌, ◌++◌, take, drop, take-drop, length, length-append,
  arith, Bool-cases,
}

module _ {D : Type 0} where
  abbrev pub concat : List (List D) → List D
  concat [] = []
  concat (batch ∷ batches) = batch ++ concat batches

  -- No batch is empty or above the limit.
  abbrev pub AllFit : (limit : ℕ) → List (List D) → Type 0
  AllFit limit [] = Unit
  AllFit limit (batch ∷ batches) =
      (1 ≤ length batch) × (length batch ≤ limit) × AllFit limit batches

  -- What a pass over the queue does.
  pub record Chunked (limit : ℕ) (s s' : Streamer D (List D)) : Type 0 where
    pub batches : List (List D)
    pub written : s'.written ≡ s.written ++ batches
    pub whole : concat batches ++ s'.spans ≡ s.spans
    pub fit : AllFit limit batches
    pub counted : s'.sent ≡ s.sent + length (concat batches)
    pub idle : s'.writable ≡ true → s'.spans ≡ []

  length-take_le : (n : ℕ) (xs : List D) → length (take n xs) ≤ n
  length-take_le zero xs = omega arith
  length-take_le (suc n) [] = omega arith
  length-take_le (suc n) (x ∷ xs) = omega (arith, length-take_le n xs)

  length-drop_le : (n : ℕ) (xs : List D) → length (drop n xs) ≤ length xs
  length-drop_le zero xs = omega arith
  length-drop_le (suc n) [] = omega arith
  length-drop_le (suc n) (x ∷ xs) = omega (arith, length-drop_le n xs)

module _ {D : Type 0} (accepts : ℕ → Bool) where
  -- The state after one batch of a queue that starts with `span`.
  after_batch : ℕ → D → List D → Streamer D (List D) → Streamer D (List D)
  after_batch n span spans s = record s {
    writable = accepts (length s.written);
    spans = drop n spans;
    written = s.written ++ (span ∷ take n spans) ∷ [];
    sent = s.sent + suc (length (take n spans));
    listening = if accepts (length s.written) then s.listening else true;
  }

  after_round : ℕ → ℕ → Streamer D (List D) → List D → Bool → Option (Streamer D (List D))
  after_round fuel limit s queue writable = elim queue [
    | [] ↦ some s
    | span ∷ spans ↦ elim writable [
      | true ↦
          let batch = take limit (span ∷ spans) in
          send accepts (spans_in batch) batch (record s { spans = drop limit (span ∷ spans) })
          >>= send_loop accepts fuel limit
      | false ↦ some s
    ]
  ]

  loop-free :
      (fuel n : ℕ) (span : D) (spans : List D) (s : Streamer D (List D))
      → s.spans ≡ span ∷ spans
      → s.writable ≡ true
      → s.stream ≡ true
      → send_loop accepts (suc fuel) (suc n) s
        ≡ send_loop accepts fuel (suc n) (after_batch n span spans s)
  unfolding send_loop send after_batch after_round
  loop-free fuel n span spans s held free opened =
      ap₂ (after_round fuel (suc n) s) held free
      ∙ ap
          (λ o.
            (if o then some (after_batch n span spans s) else none)
            >>= send_loop accepts fuel (suc n))
          opened

  loop-blocked :
      (fuel n : ℕ) (span : D) (spans : List D) (s : Streamer D (List D))
      → s.spans ≡ span ∷ spans
      → s.writable ≡ false
      → send_loop accepts (suc fuel) (suc n) s ≡ some s
  unfolding send_loop after_round
  loop-blocked fuel n span spans s held blocked = ap₂ (after_round fuel (suc n) s) held blocked

  loop-empty :
      (fuel n : ℕ) (s : Streamer D (List D)) → s.spans ≡ [] → send_loop accepts fuel n s ≡ some s
  unfolding send_loop after_round
  loop-empty zero n s held = refl
  loop-empty (suc fuel) n s held = ap (λ q. after_round fuel n s q s.writable) held

  unchanged :
      (limit : ℕ) (s : Streamer D (List D)) → (s.writable ≡ true → s.spans ≡ []) → Chunked limit s s
  unchanged limit s idle = record {
    batches = [];
    written = sym (append-nil s.written);
    whole = refl;
    fit = tt;
    counted = omega arith;
    idle = idle;
  }

  loop-Chunked :
      (fuel n : ℕ) (s : Streamer D (List D)) (queue : List D)
      → s.spans ≡ queue
      → length queue ≤ fuel
      → s.stream ≡ true
      → (s' : Streamer D (List D)) × (send_loop accepts fuel (suc n) s ≡ some s')
        × Chunked (suc n) s s'
  unfolding after_batch
  loop-Chunked fuel n s [] held short opened =
      (s, loop-empty fuel (suc n) s held, unchanged (suc n) s (λ w. held))
  loop-Chunked zero n s (span ∷ spans) held short opened = absurd (omega arith)
  loop-Chunked (suc fuel) n s (span ∷ spans) held short opened = elim (Bool-cases s.writable) [
    | inr blocked ↦
        (s, loop-blocked fuel n span spans s held blocked, unchanged (suc n) s (λ w. absurd cc))
    | inl free ↦
        let t = after_batch n span spans s in
        let (s', looped, c) =
          loop-Chunked fuel n t (drop n spans) refl (omega (arith, length-drop_le n spans))
            opened in
        (
          s',
          loop-free fuel n span spans s held free opened ∙ looped,
          record {
            batches = (span ∷ take n spans) ∷ c.batches;
            written = c.written ∙ append_assoc s.written ((span ∷ take n spans) ∷ []) c.batches;
            whole =
                append_assoc (span ∷ take n spans) (concat c.batches) s'.spans
                ∙ ap (λ l. (span ∷ take n spans) ++ l) c.whole
                ∙ ap (◌∷◌ span) (take-drop n spans)
                ∙ sym held;
            fit = (omega arith, omega (arith, length-take_le n spans), c.fit);
            counted =
                omega (arith, c.counted, length-append (span ∷ take n spans) (concat c.batches));
            idle = c.idle;
          },
        )
  ]

  -- At an open stream, with a batch size that is not 0, a pass over the queue ends without an
  -- exception: it has written batches of 1 span to the batch size, which with what is left in the queue
  -- are the spans of the queue in their order; each span written is counted as sent, and nothing is
  -- left if the stream still accepts writes.
  pub send_queue-Chunked :
      (batch_size : ℕ) (s : Streamer D (List D))
      → 0 < batch_size
      → s.stream ≡ true
      → (s' : Streamer D (List D)) × (send_queue accepts batch_size s ≡ some s')
        × Chunked batch_size s s'
  unfolding send_queue
  send_queue-Chunked zero s sized opened = absurd (omega arith)
  send_queue-Chunked (suc n) s sized opened =
      loop-Chunked (length s.spans) n s s.spans refl (omega arith) opened
