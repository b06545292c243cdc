-- ===== src/Streamers/Single/Writing.antt =====
-- lib/spans/span-streamer.js, `write`: the span is written, queued or dropped.
use mathlib.Core.List.{append_assoc, append-nil}
use mathlib.Core.List.{sublist-append_left}
use mathlib.Core.List.Sublist
use node_newrelic.Streamers.{Streamer, base_write, send}
use node_newrelic.Streamers.Single.{write}
use node_newrelic.Shared.{
  ℕ, suc, ◌+◌, ◌≡◌, refl, sym, ap, ◌∙◌, inl, inr, Bool, true, false, none, some, if◌then◌else◌,
  List, [], ◌∷◌, ◌++◌, map, length, length-append, ltb, arith, Bool-cases, subst,
}
use node_newrelic.Streamers.Single.Flushing.{sent_one, send-sent_one, Sound}

module _ {S D : Type 0} (format : S → D) (accepts : ℕ → Bool) where
  length-after : (xs : List S) (x : S) → length (xs ++ x ∷ []) ≡ suc (length xs)
  length-after xs x = length-append xs (x ∷ []) ∙ omega arith

  map-after : (xs : List S) (x : S) → map format (xs ++ x ∷ []) ≡ map format xs ++ format x ∷ []
  map-after [] x = refl
  map-after (y ∷ xs) x = ap (◌∷◌ (format y)) (map-after xs x)

  -- A span joins the accepted ones.
  longer_flow :
      (written : List D) (queue accepted : List S) (x : S)
      → written ++ map format queue ≡ map format accepted
      → written ++ map format (queue ++ x ∷ []) ≡ map format (accepted ++ x ∷ [])
  longer_flow written queue accepted x e =
      ap (λ l. written ++ l) (map-after queue x)
      ∙ sym (append_assoc written (map format queue) (format x ∷ []))
      ∙ ap (λ l. l ++ format x ∷ []) e
      ∙ sym (map-after accepted x)

  counted : Streamer S D → Streamer S D
  counted s = record s { seen = s.seen + 1 }

  base_write-free :
      (span : S) (s : Streamer S D) → s.writable ≡ true → base_write span s ≡ counted s
  unfolding base_write counted
  base_write-free span s free = ground arith

  -- The part of `write` after that of the base class.
  abbrev write_on : S → Streamer S D → Streamer S D
  write_on span t =
      if t.writable then elim (send accepts 1 (format span) t) [ none ↦ t | some s'' ↦ s'' ] else t

  write_on-free :
      (span : S) (t : Streamer S D)
      → t.writable ≡ true
      → t.stream ≡ true
      → write_on span t ≡ sent_one format accepts (accepts (length t.written)) (format span) t
  write_on-free span t free opened =
      ap (λ w. if w then elim (send accepts 1 (format span) t) [ none ↦ t | some s'' ↦ s'' ] else t)
        free
      ∙ ap (λ o. elim o [ none ↦ t | some s'' ↦ s'' ])
          (send-sent_one format accepts (format span) t opened)

  write-free :
      (span : S) (s : Streamer S D)
      → s.writable ≡ true
      → s.stream ≡ true
      → write format accepts span s
        ≡ sent_one format accepts (accepts (length s.written)) (format span) (counted s)
  unfolding write counted
  write-free span s free opened =
      ap (write_on span) (base_write-free span s free) ∙ write_on-free span (counted s) free opened

  write-queued :
      (span : S) (s : Streamer S D)
      → s.writable ≡ false
      → ltb (length s.spans) s.queue_size ≡ true
      → write format accepts span s ≡ record (counted s) { spans = s.spans ++ span ∷ [] }
  unfolding write base_write counted
  write-queued span s blocked room = ground arith

  write-dropped :
      (span : S) (s : Streamer S D)
      → s.writable ≡ false
      → ltb (length s.spans) s.queue_size ≡ false
      → write format accepts span s ≡ record (counted s) { dropped = s.dropped + 1 }
  unfolding write base_write counted
  write-dropped span s blocked full = ground arith

  pub write-Sound :
      (size : ℕ) (offered : List S) (span : S) (s : Streamer S D)
      → Sound format accepts size offered s
      → Sound format accepts size (offered ++ span ∷ []) (write format accepts span s)
  unfolding sent_one counted
  write-Sound size offered span s inv = elim (Bool-cases s.writable) [
    | inl free ↦
        subst (Sound format accepts size (offered ++ span ∷ []))
          (sym (write-free span s free (inv.open' free)))
          (record {
            accepted = inv.accepted ++ span ∷ [];
            order = Sublist.append inv.order (Sublist.refl (span ∷ []));
            flow =
                ap (λ q. (s.written ++ format span ∷ []) ++ map format q) (inv.idle free)
                ∙ append-nil (s.written ++ format span ∷ [])
                ∙ ap (λ q. s.written ++ map format (q ++ span ∷ [])) (sym (inv.idle free))
                ∙ longer_flow s.written s.spans inv.accepted span inv.flow;
            seen = omega (arith, inv.seen, length-after offered span);
            dropped =
                omega
                  (arith, inv.dropped, length-after offered span, length-after inv.accepted span);
            sent = omega (arith, inv.sent, length-append s.written (format span ∷ []));
            bounded = inv.bounded;
            same_size = inv.same_size;
            idle = λ w. inv.idle free;
            open' = λ w. inv.open' free;
            listens = λ w. inv.open' free;
          })
    | inr blocked ↦ elim (Bool-cases (ltb (length s.spans) s.queue_size)) [
      | inl room ↦
          subst (Sound format accepts size (offered ++ span ∷ []))
            (sym (write-queued span s blocked room))
            (record {
              accepted = inv.accepted ++ span ∷ [];
              order = Sublist.append inv.order (Sublist.refl (span ∷ []));
              flow = longer_flow s.written s.spans inv.accepted span inv.flow;
              seen = omega (arith, inv.seen, length-after offered span);
              dropped =
                  omega
                    (arith, inv.dropped, length-after offered span, length-after inv.accepted span);
              sent = inv.sent;
              bounded = ground (arith, length-after s.spans span, inv.same_size);
              same_size = inv.same_size;
              idle = λ w. absurd cc;
              open' = λ w. absurd cc;
              listens = inv.listens;
            })
      | inr full ↦
          subst (Sound format accepts size (offered ++ span ∷ []))
            (sym (write-dropped span s blocked full))
            (record {
              accepted = inv.accepted;
              order = Sublist.trans inv.order (sublist-append_left offered (span ∷ []));
              flow = inv.flow;
              seen = omega (arith, inv.seen, length-after offered span);
              dropped = omega (arith, inv.dropped, length-after offered span);
              sent = inv.sent;
              bounded = inv.bounded;
              same_size = inv.same_size;
              idle = λ w. absurd cc;
              open' = λ w. absurd cc;
              listens = inv.listens;
            })
    ]
  ]
