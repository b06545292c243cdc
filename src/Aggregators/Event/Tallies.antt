-- ===== src/Aggregators/Event/Tallies.antt =====
-- lib/aggregators/event-aggregator.js: what the metrics of events seen, sent and dropped hold after
-- they were counted.
use node_newrelic.Aggregators.Event.{MetricNames, count_dropped}
use node_newrelic.Metrics.{Metrics}
use node_newrelic.Stats.{or_else, math_min}
use node_newrelic.Metrics.Counting.{
  AllCountable, calls, after_count, increment-after_count, after_count-AllCountable,
  calls-after_count_self, calls-after_count_ne,
}
use node_newrelic.Shared.Int.{ℤ, pos, ◌+ℤ◌, ◌-ℤ◌, ◌≤ℤ◌, ltb_ℤ, int_laws, -ℤ_parts}
use node_newrelic.Shared.{
  ◌≡◌, ap, ◌∙◌, inl, inr, false, Option, some, if◌then◌else◌, arith, str_eq, Bool-cases,
}

-- The three metrics are three.
pub record AreDistinct (n : MetricNames) : Type 0 where
  pub seen_sent : str_eq n.seen n.sent ≡ false
  pub seen_dropped : str_eq n.seen n.dropped ≡ false
  pub sent_seen : str_eq n.sent n.seen ≡ false
  pub sent_dropped : str_eq n.sent n.dropped ≡ false
  pub dropped_seen : str_eq n.dropped n.seen ≡ false
  pub dropped_sent : str_eq n.dropped n.sent ≡ false

abbrev pub handled : MetricNames → Metrics → ℤ
handled n m = calls n.sent m +ℤ calls n.dropped m

-- `m'` counts so many events more than `m`, as seen and as either sent or dropped.
pub record Counts (n : MetricNames) (amount : ℤ) (m m' : Metrics) : Type 0 where
  pub seen : calls n.seen m' ≡ calls n.seen m +ℤ amount
  pub handled_all : handled n m' ≡ handled n m +ℤ amount
  pub countable : AllCountable m'

-- Of so many events more, `m'` counts as sent what room is left for, and the others as dropped.
pub record Splits (n : MetricNames) (amount room : ℤ) (m m' : Metrics) : Type 0 where
  pub counts : Counts n amount m m'
  pub sent : calls n.sent m' ≡ calls n.sent m +ℤ math_min amount room
  pub dropped : calls n.dropped m' ≡ calls n.dropped m +ℤ (amount -ℤ math_min amount room)

none_of_it :
    (total part : ℤ) → part ≤ℤ total → ltb_ℤ (pos 0) (total -ℤ part) ≡ false → total -ℤ part ≡ pos 0
none_of_it total part le none_left = ground (arith, -ℤ_parts total part)

plus_none : (a b : ℤ) → b ≡ pos 0 → a ≡ a +ℤ b
plus_none a b e = rw e (omega int_laws)

all_of_it : (total part : ℤ) → part ≤ℤ total → ltb_ℤ (pos 0) (total -ℤ part) ≡ false → part ≡ total
all_of_it total part le none_left = ground (arith, -ℤ_parts total part)

module _ (n : MetricNames) (m : Metrics) (amount : Option ℤ) (d : AreDistinct n)
    (h : AllCountable m) where
  unfoldable pub seen_m : Metrics
  seen_m = after_count n.seen amount m

  pub seen_m-AllCountable : AllCountable seen_m
  unfolding seen_m
  seen_m-AllCountable = after_count-AllCountable n.seen amount m h

  -- Counting as seen, then some as sent.
  module _ (sent : Option ℤ) where
    unfoldable pub sent_m : Metrics
    sent_m = after_count n.sent sent seen_m

    pub sent_m-AllCountable : AllCountable sent_m
    unfolding sent_m
    sent_m-AllCountable = after_count-AllCountable n.sent sent seen_m seen_m-AllCountable

    seen-sent_m : calls n.seen sent_m ≡ calls n.seen m +ℤ or_else amount (pos 1)
    unfolding sent_m seen_m
    seen-sent_m =
        calls-after_count_ne n.sent n.seen sent seen_m d.sent_seen (seen_m-AllCountable n.sent)
        ∙ calls-after_count_self n.seen amount m (h n.seen)

    sent-sent_m : calls n.sent sent_m ≡ calls n.sent m +ℤ or_else sent (pos 1)
    unfolding sent_m seen_m
    sent-sent_m =
        calls-after_count_self n.sent sent seen_m (seen_m-AllCountable n.sent)
        ∙ ap (λ c. c +ℤ or_else sent (pos 1))
            (calls-after_count_ne n.seen n.sent amount m d.seen_sent (h n.seen))

    dropped-sent_m : calls n.dropped sent_m ≡ calls n.dropped m
    unfolding sent_m seen_m
    dropped-sent_m =
        calls-after_count_ne n.sent n.dropped sent seen_m d.sent_dropped
          (seen_m-AllCountable n.sent)
        ∙ calls-after_count_ne n.seen n.dropped amount m d.seen_dropped (h n.seen)

  -- Counting an amount as seen, a part as sent, and what is left as dropped, if it is positive.
  module _ (sent : ℤ) (le : sent ≤ℤ or_else amount (pos 1)) where
    pub split_m : Metrics
    split_m =
        let dropped = or_else amount (pos 1) -ℤ sent in
        if ltb_ℤ (pos 0) dropped
        then after_count n.dropped (some dropped) (sent_m (some sent))
        else sent_m (some sent)

    pub count_dropped-split_m :
        count_dropped n.dropped (or_else amount (pos 1) -ℤ sent) (sent_m (some sent)) ≡ some split_m
    unfolding split_m
    count_dropped-split_m =
        let dropped = or_else amount (pos 1) -ℤ sent in
        elim (Bool-cases (ltb_ℤ (pos 0) dropped)) [
          | inl some_dropped ↦ rw some_dropped (
              increment-after_count n.dropped (some dropped) (sent_m (some sent))
                (sent_m-AllCountable (some sent) n.dropped))
          | inr none_dropped ↦ rw none_dropped
        ]

    pub split : Counts n (or_else amount (pos 1)) m split_m
    unfolding split_m
    split =
        let dropped = or_else amount (pos 1) -ℤ sent in
        let m2 = sent_m (some sent) in
        let h2 = sent_m-AllCountable (some sent) in
        elim (Bool-cases (ltb_ℤ (pos 0) dropped)) [
          | inl some_dropped ↦ rw some_dropped (record {
            seen =
                calls-after_count_ne n.dropped n.seen (some dropped) m2 d.dropped_seen
                  (h2 n.dropped)
                ∙ seen-sent_m (some sent);
            handled_all =
                rw
                  (
                    calls-after_count_ne n.dropped n.sent (some dropped) m2 d.dropped_sent
                        (h2 n.dropped),
                    calls-after_count_self n.dropped (some dropped) m2 (h2 n.dropped),
                    sent-sent_m (some sent),
                    dropped-sent_m (some sent),
                  )
                  (omega int_laws);
            countable = after_count-AllCountable n.dropped (some dropped) m2 h2;
          })
          | inr none_dropped ↦ rw none_dropped (record {
            seen = seen-sent_m (some sent);
            handled_all =
                rw (sent-sent_m (some sent), dropped-sent_m (some sent))
                  (rw (all_of_it (or_else amount (pos 1)) sent le none_dropped) (omega int_laws));
            countable = h2;
          })
        ]

    pub sent-split_m : calls n.sent split_m ≡ calls n.sent m +ℤ sent
    unfolding split_m
    sent-split_m =
        let dropped = or_else amount (pos 1) -ℤ sent in
        elim (Bool-cases (ltb_ℤ (pos 0) dropped)) [
          | inl some_dropped ↦ rw some_dropped (
              calls-after_count_ne n.dropped n.sent (some dropped) (sent_m (some sent))
                d.dropped_sent (sent_m-AllCountable (some sent) n.dropped)
              ∙ sent-sent_m (some sent))
          | inr none_dropped ↦ rw none_dropped (sent-sent_m (some sent))
        ]

    pub dropped-split_m :
        calls n.dropped split_m ≡ calls n.dropped m +ℤ (or_else amount (pos 1) -ℤ sent)
    unfolding split_m
    dropped-split_m =
        let dropped = or_else amount (pos 1) -ℤ sent in
        elim (Bool-cases (ltb_ℤ (pos 0) dropped)) [
          | inl some_dropped ↦ rw some_dropped (
              calls-after_count_self n.dropped (some dropped) (sent_m (some sent))
                (sent_m-AllCountable (some sent) n.dropped)
              ∙ ap (λ c. c +ℤ dropped) (dropped-sent_m (some sent)))
          | inr none_dropped ↦ rw none_dropped (
              dropped-sent_m (some sent)
              ∙ plus_none (calls n.dropped m) dropped
                  (none_of_it (or_else amount (pos 1)) sent le none_dropped))
        ]

  -- Counting as seen, and all of it as sent or all of it as dropped.
  pub all_sent : Counts n (or_else amount (pos 1)) m (sent_m amount)
  all_sent = record {
    seen = seen-sent_m amount;
    handled_all = rw (sent-sent_m amount, dropped-sent_m amount) (omega int_laws);
    countable = sent_m-AllCountable amount;
  }

  pub all_dropped : Counts n (or_else amount (pos 1)) m (after_count n.dropped amount seen_m)
  unfolding seen_m
  all_dropped = record {
    seen =
        calls-after_count_ne n.dropped n.seen amount seen_m d.dropped_seen
          (seen_m-AllCountable n.dropped)
        ∙ calls-after_count_self n.seen amount m (h n.seen);
    handled_all =
        rw
          (
            calls-after_count_ne n.dropped n.sent amount seen_m d.dropped_sent
                (seen_m-AllCountable n.dropped),
            calls-after_count_self n.dropped amount seen_m (seen_m-AllCountable n.dropped),
            calls-after_count_ne n.seen n.sent amount m d.seen_sent (h n.seen),
            calls-after_count_ne n.seen n.dropped amount m d.seen_dropped (h n.seen),
          )
          (omega int_laws);
    countable = after_count-AllCountable n.dropped amount seen_m seen_m-AllCountable;
  }
