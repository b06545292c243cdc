-- ===== src/Traceparent/Parts.antt =====
-- Splitting text at a separator and joining it, and trimming text without blanks.
use node_newrelic.Shared.Text.{Text, trim_start, trim_end, trim, split, onto_first, is_space}
use node_newrelic.Shared.{
  ℕ, ◌≡◌, refl, sym, ap, ◌∙◌, inl, inr, Bool, true, false, not, ◌&&◌, List, [], ◌∷◌, ◌++◌, ◌==◌,
  arith, Bool-cases,
}

abbrev pub join_with : ℕ → List Text → Text
join_with sep [] = []
join_with sep (p ∷ []) = p
join_with sep (p ∷ q ∷ ps) = p ++ sep ∷ join_with sep (q ∷ ps)

abbrev pub is_free_of : ℕ → Text → Bool
is_free_of sep [] = true
is_free_of sep (c ∷ s) = not (c == sep) && is_free_of sep s

abbrev pub has_no_space : Text → Bool
has_no_space [] = true
has_no_space (c ∷ s) = not (is_space c) && has_no_space s

pub split_piece : (sep : ℕ) (s : Text) → is_free_of sep s ≡ true → split sep s ≡ s ∷ []
unfolding split
split_piece sep [] h = refl
split_piece sep (c ∷ s) h = ground (arith, split_piece sep s)

pub split_first :
    (sep : ℕ) (s rest : Text)
    → is_free_of sep s ≡ true
    → split sep (s ++ sep ∷ rest) ≡ s ∷ split sep rest
unfolding split
split_first sep [] rest h = ground arith
split_first sep (c ∷ s) rest h = ground (arith, split_first sep s rest)

split-cons : (sep : ℕ) (s : Text) → (p : Text) × (ps : List Text) × (split sep s ≡ p ∷ ps)
unfolding split
split-cons sep [] = ([], [], refl)
split-cons sep (c ∷ s) =
    let (p, ps, e) = split-cons sep s in
    elim (Bool-cases (c == sep)) [
      | inl here ↦ ([], split sep s, rw here refl)
      | inr other ↦ (c ∷ p, ps, rw (other, e) refl)
    ]

join_with-onto_first :
    (sep c : ℕ) (p : Text) (ps : List Text)
    → join_with sep (onto_first c (p ∷ ps)) ≡ c ∷ join_with sep (p ∷ ps)
join_with-onto_first sep c p [] = refl
join_with-onto_first sep c p (q ∷ ps) = refl

pub join_with-split : (sep : ℕ) (s : Text) → join_with sep (split sep s) ≡ s
unfolding split
join_with-split sep [] = refl
join_with-split sep (c ∷ s) =
    let (p, ps, e) = split-cons sep s in
    let whole : join_with sep (p ∷ ps) ≡ s = ap (join_with sep) (sym e) ∙ join_with-split sep s in
    elim (Bool-cases (c == sep)) [
      | inl here ↦
          let same : c ≡ sep = ground arith in
          rw (here, e) (ap (◌∷◌ sep) whole ∙ ap (λ x. x ∷ s) (sym same))
      | inr other ↦ rw (other, e) (join_with-onto_first sep c p ps ∙ ap (◌∷◌ c) whole)
    ]

both : (a b : Bool) → (not a && b) ≡ true → (a ≡ false) × (b ≡ true)
both true b h = cc
both false b h = (refl, h)

trim_start_same : (s : Text) → has_no_space s ≡ true → trim_start s ≡ s
unfolding trim_start
trim_start_same [] h = refl
trim_start_same (c ∷ s) h = ground arith

trim_end_cons : (c : ℕ) (s : Text) → is_space c ≡ false → trim_end s ≡ s → trim_end (c ∷ s) ≡ c ∷ s
unfolding trim_end
trim_end_cons c [] h e = rw h refl
trim_end_cons c (d ∷ s) h e = rw (trim_end, e) refl

trim_end_same : (s : Text) → has_no_space s ≡ true → trim_end s ≡ s
unfolding trim_end
trim_end_same [] h = refl
trim_end_same (c ∷ s) h =
    let (here, rest) = both (is_space c) (has_no_space s) h in
    trim_end_cons c s here (trim_end_same s rest)

pub trim_same : (s : Text) → has_no_space s ≡ true → trim s ≡ s
trim_same s h = ap trim_end (trim_start_same s h) ∙ trim_end_same s h

pub is_free_of-append :
    (sep : ℕ) (s t : Text)
    → is_free_of sep s ≡ true
    → is_free_of sep t ≡ true
    → is_free_of sep (s ++ t) ≡ true
is_free_of-append sep [] t h k = k
is_free_of-append sep (c ∷ s) t h k = ground (arith, is_free_of-append sep s t)

pub has_no_space-append :
    (s t : Text) → has_no_space s ≡ true → has_no_space t ≡ true → has_no_space (s ++ t) ≡ true
has_no_space-append [] t h k = k
has_no_space-append (c ∷ s) t h k = ground (arith, has_no_space-append s t)
