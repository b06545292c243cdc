-- ===== src/Aggregators/Event/Shuffles.antt =====
-- The parts among which lib/aggregators/event-aggregator.js moves its events, in another order.
use mathlib.Core.List.{append_assoc, perm_append_comm}
use mathlib.Core.List.Perm
use node_newrelic.Shared.{sym, List, ◌++◌, Perm, subst}

-- Three parts in a row, the first two exchanged.
pub perm_front : {A : Type 0} (a b c : List A) → Perm (a ++ (b ++ c)) (b ++ (a ++ c))
perm_front a b c =
    subst (λ l. Perm (a ++ (b ++ c)) l) (append_assoc b a c)
      (subst (λ l. Perm l (b ++ a ++ c)) (append_assoc a b c)
        (Perm.append_right c (perm_append_comm a b)))

module _ {A : Type 0} where
  -- What a send does to the parts: `held` goes on the way, `dropped` is lost.
  pub sent_perm :
      (current held dropped way done lost : List A)
      → Perm current (held ++ dropped)
      → Perm (current ++ (way ++ (done ++ lost))) ((held ++ way) ++ (done ++ (dropped ++ lost)))
  sent_perm current held dropped way done lost p =
      let split : Perm (current ++ (way ++ (done ++ lost)))
          (held ++ (dropped ++ (way ++ (done ++ lost)))) =
        subst (λ l. Perm (current ++ (way ++ (done ++ lost))) l)
          (append_assoc held dropped (way ++ (done ++ lost)))
          (Perm.append_right (way ++ (done ++ lost)) p) in
      let moved : Perm (dropped ++ (way ++ (done ++ lost))) (way ++ (done ++ (dropped ++ lost))) =
        Perm.trans (perm_front dropped way (done ++ lost))
          (Perm.append_left way (perm_front dropped done lost)) in
      subst (λ l. Perm (current ++ (way ++ (done ++ lost))) l)
        (sym (append_assoc held way (done ++ (dropped ++ lost))))
        (Perm.trans split (Perm.append_left held moved))

  -- What a response takes from the way, at the front.
  pub taken_perm :
      (current way payload rest others : List A)
      → Perm way (payload ++ rest)
      → Perm (current ++ (way ++ others)) (payload ++ (current ++ (rest ++ others)))
  taken_perm current way payload rest others p =
      Perm.trans
        (Perm.append_left current (
          subst (λ l. Perm (way ++ others) l) (append_assoc payload rest others)
            (Perm.append_right others p)))
        (perm_front current payload (rest ++ others))

  pub done_perm :
      (current payload rest done lost : List A)
      → Perm
          (payload ++ (current ++ (rest ++ (done ++ lost))))
          (current ++ (rest ++ ((payload ++ done) ++ lost)))
  done_perm current payload rest done lost =
      subst (λ l. Perm (payload ++ (current ++ (rest ++ (done ++ lost)))) (current ++ (rest ++ l)))
        (sym (append_assoc payload done lost))
        (Perm.trans (perm_front payload current (rest ++ (done ++ lost)))
          (Perm.append_left current (perm_front payload rest (done ++ lost))))
