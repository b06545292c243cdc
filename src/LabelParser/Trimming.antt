-- ===== src/LabelParser/Trimming.antt =====
-- lib/util/label-parser.js: the two loops that drop blank pieces at the ends of a label string.
use mathlib.Core.List.{append_assoc, append-nil}
use node_newrelic.LabelParser.{
  pop_blanks, shift_blanks, is_falsy, last_text?, first_text?, pop, from_string, pieces, read_pairs,
  finish,
}
use node_newrelic.Shared.Text.{Text}
use node_newrelic.Shared.{
  ℕ, zero, suc, ◌≤◌, ◌<◌, ◌≡◌, refl, sym, ap, ◌∙◌, inl, inr, true, false, none, some, List, [], ◌∷◌,
  ◌++◌, length, arith, Bool-cases,
}

-- Some piece holds a character.
abbrev pub HasText : List Text → Type 0
HasText [] = ⊥
HasText ([] ∷ ps) = HasText ps
HasText ((c ∷ s) ∷ ps) = Unit

abbrev pub AllBlank : List Text → Type 0
AllBlank [] = Unit
AllBlank ([] ∷ ps) = AllBlank ps
AllBlank ((c ∷ s) ∷ ps) = ⊥

last-blank : (ps : List Text) → AllBlank ps → is_falsy (last_text? ps) ≡ true
last-blank [] b = refl
last-blank ([] ∷ []) b = refl
last-blank ([] ∷ q ∷ ps) b = last-blank (q ∷ ps) b
last-blank ((c ∷ s) ∷ ps) b = absurd b

pop-AllBlank : (ps : List Text) → AllBlank ps → AllBlank (pop ps)
pop-AllBlank [] b = tt
pop-AllBlank ([] ∷ []) b = tt
pop-AllBlank ([] ∷ q ∷ ps) b = pop-AllBlank (q ∷ ps) b
pop-AllBlank ((c ∷ s) ∷ ps) b = absurd b

-- Over blank pieces alone the first loop never ends: an empty list still has a falsy last entry.
pub pop_blanks-none : (fuel : ℕ) (ps : List Text) → AllBlank ps → pop_blanks fuel ps ≡ none
unfolding pop_blanks
pop_blanks-none zero ps b = refl
pop_blanks-none (suc fuel) ps b =
    rw (pop_blanks, last-blank ps b) (pop_blanks-none fuel (pop ps) (pop-AllBlank ps b))

-- A list cut into blank pieces, a middle that begins and ends with text, and blank pieces.
pub record Trimmed (ps middle : List Text) : Type 0 where
  pub front : List Text
  pub back : List Text
  pub parts : ps ≡ front ++ middle ++ back
  pub front_blank : AllBlank front
  pub back_blank : AllBlank back
  pub first_text : is_falsy (first_text? middle) ≡ false
  pub last_text : is_falsy (last_text? middle) ≡ false

pop-HasText : (ps : List Text) → is_falsy (last_text? ps) ≡ true → HasText ps → HasText (pop ps)
pop-HasText [] e h = absurd h
pop-HasText ([] ∷ []) e h = h
pop-HasText ((c ∷ s) ∷ []) e h = cc
pop-HasText ([] ∷ q ∷ ps) e h = pop-HasText (q ∷ ps) e h
pop-HasText ((c ∷ s) ∷ q ∷ ps) e h = tt

append_last :
    (p : Text) (ps : List Text)
    → is_falsy (last_text? (p ∷ ps)) ≡ true
    → p ∷ ps ≡ pop (p ∷ ps) ++ [] ∷ []
append_last [] [] e = refl
append_last (c ∷ s) [] e = cc
append_last p (q ∷ ps) e = ap (◌∷◌ p) (append_last q ps e)

length-pop : (p : Text) (ps : List Text) → suc (length (pop (p ∷ ps))) ≡ length (p ∷ ps)
length-pop p [] = refl
length-pop p (q ∷ ps) = ap suc (length-pop q ps)

append-AllBlank : (ps : List Text) → AllBlank ps → AllBlank (ps ++ [] ∷ [])
append-AllBlank [] b = tt
append-AllBlank ([] ∷ ps) b = append-AllBlank ps b
append-AllBlank ((c ∷ s) ∷ ps) b = absurd b

-- What the first loop leaves, and the blanks that it drops.
record Popped (ps kept : List Text) : Type 0 where
  blanks : List Text
  parts : ps ≡ kept ++ blanks
  all_blank : AllBlank blanks
  last_text : is_falsy (last_text? kept) ≡ false
  has_text : HasText kept

Popped-more :
    (p : Text) (ps kept : List Text)
    → is_falsy (last_text? (p ∷ ps)) ≡ true
    → Popped (pop (p ∷ ps)) kept
    → Popped (p ∷ ps) kept
Popped-more p ps kept e popped = record {
  blanks = popped.blanks ++ [] ∷ [];
  parts =
      append_last p ps e
      ∙ ap (λ l. l ++ [] ∷ []) popped.parts
      ∙ append_assoc kept popped.blanks ([] ∷ []);
  all_blank = append-AllBlank popped.blanks popped.all_blank;
  last_text = popped.last_text;
  has_text = popped.has_text;
}

pop_blanks-Popped :
    (fuel : ℕ) (ps : List Text)
    → length ps < fuel
    → HasText ps
    → (kept : List Text) × (pop_blanks fuel ps ≡ some kept) × Popped ps kept
unfolding pop_blanks
pop_blanks-Popped zero ps lt h = absurd (omega arith)
pop_blanks-Popped (suc fuel) [] lt h = absurd h
pop_blanks-Popped (suc fuel) (p ∷ ps) lt h = elim (Bool-cases (is_falsy (last_text? (p ∷ ps)))) [
  | inl blank ↦
      let shorter : length (pop (p ∷ ps)) < fuel = omega (arith, length-pop p ps) in
      let (kept, run, popped) =
        pop_blanks-Popped fuel (pop (p ∷ ps)) shorter (pop-HasText (p ∷ ps) blank h) in
      (kept, rw (pop_blanks, blank) run, Popped-more p ps kept blank popped)
  | inr full ↦ (
    p ∷ ps,
    rw (pop_blanks, full) refl,
    record {
      blanks = [];
      parts = sym (append-nil (p ∷ ps));
      all_blank = tt;
      last_text = full;
      has_text = h;
    },
  )
]

-- What the second loop leaves, and the blanks that it drops.
record Shifted (ps middle : List Text) : Type 0 where
  blanks : List Text
  parts : ps ≡ blanks ++ middle
  all_blank : AllBlank blanks
  first_text : is_falsy (first_text? middle) ≡ false
  last_text : is_falsy (last_text? middle) ≡ false

shift_blanks-Shifted :
    (fuel : ℕ) (ps : List Text)
    → length ps < fuel
    → is_falsy (last_text? ps) ≡ false
    → (middle : List Text) × (shift_blanks fuel ps ≡ some middle) × Shifted ps middle
unfolding shift_blanks
shift_blanks-Shifted zero ps lt h = absurd (omega arith)
shift_blanks-Shifted (suc fuel) [] lt h = cc
shift_blanks-Shifted (suc fuel) ([] ∷ []) lt h = cc
shift_blanks-Shifted (suc fuel) ([] ∷ q ∷ ps) lt h =
    let (middle, run, shifted) = shift_blanks-Shifted fuel (q ∷ ps) (omega arith) h in
    (
      middle,
      run,
      record {
        blanks = [] ∷ shifted.blanks;
        parts = ap (◌∷◌ []) shifted.parts;
        all_blank = shifted.all_blank;
        first_text = shifted.first_text;
        last_text = shifted.last_text;
      },
    )
shift_blanks-Shifted (suc fuel) ((c ∷ s) ∷ ps) lt h = (
  (c ∷ s) ∷ ps,
  refl,
  record { blanks = []; parts = refl; all_blank = tt; first_text = refl; last_text = h },
)

length-kept : (kept blanks : List Text) → length kept ≤ length (kept ++ blanks)
length-kept [] blanks = omega arith
length-kept (k ∷ kept) blanks = omega (arith, length-kept kept blanks)

-- With more rounds than there are pieces, a label string of which some piece holds a character
-- always gets a result: the labels, or the problem, of the pieces that are left when the blank ones
-- at both ends are cut off, and these begin and end with text.
pub from_string-Trimmed :
    (fuel c : ℕ) (raw : Text)
    → HasText (pieces (c ∷ raw))
    → length (pieces (c ∷ raw)) < fuel
    → (middle : List Text) × (from_string fuel (c ∷ raw) ≡ some (finish (read_pairs middle [])))
      × Trimmed (pieces (c ∷ raw)) middle
unfolding from_string
from_string-Trimmed fuel c raw h lt =
    let (kept, run, popped) = pop_blanks-Popped fuel (pieces (c ∷ raw)) lt h in
    let short : length kept < fuel =
      omega (arith, length-kept kept popped.blanks, ap length popped.parts) in
    let (middle, run', shifted) = shift_blanks-Shifted fuel kept short popped.last_text in
    (
      middle,
      rw (from_string, run, run') refl,
      record {
        front = shifted.blanks;
        back = popped.blanks;
        parts = popped.parts ∙ ap (λ l. l ++ popped.blanks) shifted.parts;
        front_blank = shifted.all_blank;
        back_blank = popped.all_blank;
        first_text = shifted.first_text;
        last_text = shifted.last_text;
      },
    )

-- A label string whose pieces are all blank, such as ";", never gets a result, whatever the number
-- of rounds.
pub from_string_hangs :
    (c : ℕ) (raw : Text)
    → AllBlank (pieces (c ∷ raw))
    → (fuel : ℕ) → from_string fuel (c ∷ raw) ≡ none
unfolding from_string
from_string_hangs c raw b fuel = rw (from_string, pop_blanks-none fuel (pieces (c ∷ raw)) b) refl
