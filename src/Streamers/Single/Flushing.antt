-- ===== src/Streamers/Single/Flushing.antt =====
-- lib/spans/span-streamer.js: what the streamer keeps, over a pass of its queue.
use mathlib.Core.List.{append_assoc}
use mathlib.Core.List.{Sublist}
use node_newrelic.Streamers.{Streamer, send}
use node_newrelic.Streamers.Single.{send_loop, send_queue, ◌>>=◌}
use node_newrelic.Shared.{
  ℕ, ◌+◌, ◌≤◌, ◌≡◌, refl, sym, ap, ap₂, ◌∙◌, inl, inr, Bool, true, false, some, if◌then◌else◌, List,
  [], ◌∷◌, ◌++◌, map, length, length-append, arith, Bool-cases,
}

module _ {S D : Type 0} (format : S → D) (accepts : ℕ → Bool) where
  -- What a pass over the queue does.
  record Flushed (queue : List S) (s s' : Streamer S D) : Type 0 where
    flow : s'.written ++ map format s'.spans ≡ s.written ++ map format queue
    no_longer : length s'.spans ≤ length queue
    stream : s'.stream ≡ true
    idle : s'.writable ≡ true → s'.spans ≡ []
    sent : s.sent ≡ length s.written → s'.sent ≡ length s'.written
    same_size : s'.queue_size ≡ s.queue_size
    same_seen : s'.seen ≡ s.seen
    same_dropped : s'.dropped ≡ s.dropped

  unfoldable pub sent_one : Bool → D → Streamer S D → Streamer S D
  sent_one ok item s = record s {
    writable = ok;
    written = s.written ++ item ∷ [];
    sent = s.sent + 1;
    listening = if ok then s.listening else true;
  }

  pub send-sent_one :
      (item : D) (s : Streamer S D)
      → s.stream ≡ true
      → send accepts 1 item s ≡ some (sent_one (accepts (length s.written)) item s)
  unfolding send sent_one
  send-sent_one item s open' = rw (send, open') refl

  loop-free :
      (span : S) (spans : List S) (s : Streamer S D)
      → s.writable ≡ true
      → send_loop format accepts (span ∷ spans) s
        ≡ (send accepts 1 (format span) s >>= send_loop format accepts spans)
  unfolding send_loop
  loop-free span spans s free =
      ap
        (λ w. elim w [
          | true ↦ send accepts 1 (format span) s >>= send_loop format accepts spans
          | false ↦ some (record s { spans = span ∷ spans })
        ])
        free

  loop-blocked :
      (span : S) (spans : List S) (s : Streamer S D)
      → s.writable ≡ false
      → send_loop format accepts (span ∷ spans) s ≡ some (record s { spans = span ∷ spans })
  unfolding send_loop
  loop-blocked span spans s blocked =
      ap
        (λ w. elim w [
          | true ↦ send accepts 1 (format span) s >>= send_loop format accepts spans
          | false ↦ some (record s { spans = span ∷ spans })
        ])
        blocked

  send_loop-Flushed :
      (queue : List S) (s : Streamer S D)
      → s.stream ≡ true
      → (s' : Streamer S D) × (send_loop format accepts queue s ≡ some s') × Flushed queue s s'
  unfolding send_loop sent_one
  send_loop-Flushed [] s open' = (
    record s { spans = [] },
    refl,
    record {
      flow = refl;
      no_longer = omega arith;
      stream = open';
      idle = λ w. refl;
      sent = λ e. e;
      same_size = refl;
      same_seen = refl;
      same_dropped = refl;
    },
  )
  send_loop-Flushed (span ∷ spans) s open' = elim (Bool-cases s.writable) [
    | inl free ↦
        let next = sent_one (accepts (length s.written)) (format span) s in
        let (s', rest, flushed) = send_loop-Flushed spans next open' in
        (
          s',
          loop-free span spans s free
              ∙ ap (λ o. o >>= send_loop format accepts spans) (send-sent_one (format span) s open')
              ∙ rest,
          record {
            flow = flushed.flow ∙ append_assoc s.written (format span ∷ []) (map format spans);
            no_longer = omega (arith, flushed.no_longer);
            stream = flushed.stream;
            idle = flushed.idle;
            sent = λ e. flushed.sent (omega (arith, length-append s.written (format span ∷ [])));
            same_size = flushed.same_size;
            same_seen = flushed.same_seen;
            same_dropped = flushed.same_dropped;
          },
        )
    | inr blocked ↦ (
      record s { spans = span ∷ spans },
      loop-blocked span spans s blocked,
      record {
        flow = refl;
        no_longer = omega arith;
        stream = open';
        idle = λ w. absurd cc;
        sent = λ e. e;
        same_size = refl;
        same_seen = refl;
        same_dropped = refl;
      },
    )
  ]

  -- Of the spans offered so far some were accepted, in their order; these are written, or wait in
  -- the queue, in this order. The counts are right, the queue is within its limit, and a span
  -- waits only while the stream is blocked.
  pub record Sound (size : ℕ) (offered : List S) (s : Streamer S D) : Type 0 where
    pub accepted : List S
    pub order : Sublist accepted offered
    pub flow : s.written ++ map format s.spans ≡ map format accepted
    pub seen : s.seen ≡ length offered
    pub dropped : length accepted + s.dropped ≡ length offered
    pub sent : s.sent ≡ length s.written
    pub bounded : length s.spans ≤ size
    pub same_size : s.queue_size ≡ size
    pub idle : s.writable ≡ true → s.spans ≡ []
    pub open' : s.writable ≡ true → s.stream ≡ true
    pub listens : s.listening ≡ true → s.stream ≡ true

  -- A pass over the queue at an open stream.
  pub flush-Sound :
      (size : ℕ) (offered : List S) (s t : Streamer S D)
      → Sound size offered s
      → t.stream ≡ true
      → t.spans ≡ s.spans
      → t.written ≡ s.written
      → t.queue_size ≡ s.queue_size
      → t.seen ≡ s.seen
      → t.dropped ≡ s.dropped
      → t.sent ≡ s.sent
      → (s' : Streamer S D) × (send_queue format accepts t ≡ some s') × Sound size offered s'
  unfolding send_queue
  flush-Sound size offered s t inv opened spans written queue_size seen dropped sent =
      let (s', sending, f) = send_loop-Flushed t.spans t opened in
      (
        s',
        sending,
        record {
          accepted = inv.accepted;
          order = inv.order;
          flow = f.flow ∙ ap₂ (λ w q. w ++ map format q) written spans ∙ inv.flow;
          seen = f.same_seen ∙ seen ∙ inv.seen;
          dropped = ap (λ d. length inv.accepted + d) (f.same_dropped ∙ dropped) ∙ inv.dropped;
          sent = f.sent (sent ∙ inv.sent ∙ ap length (sym written));
          bounded = omega (arith, f.no_longer, ap length spans, inv.bounded);
          same_size = f.same_size ∙ queue_size ∙ inv.same_size;
          idle = f.idle;
          open' = λ w. f.stream;
          listens = λ w. f.stream;
        },
      )
