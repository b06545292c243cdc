-- ===== src/Metrics/Merging.antt =====
-- lib/metrics/index.js: what is found by name and scope after a write and after a merge.
use node_newrelic.Metrics.{
  Metric, merge_into, Metrics, scope_of, or_empty, names_at, write_at, resolve, write, merge_names,
  merge_scopes, merge, earlier,
}
use node_newrelic.Shared.Dict.{Dict, lookup, insert, IsDistinct, lookup-insert, insert-IsDistinct}
use node_newrelic.Shared.{
  String, ◌≡◌, refl, ap, ◌∙◌, Bool, true, false, ◌&&◌, Option, none, some, if◌then◌else◌, [], ◌∷◌,
  arith, str_eq, eq_iff,
}

abbrev pub same_scope : Option String → Option String → Bool
same_scope none none = true
same_scope (some s) (some t) = str_eq s t
same_scope _ _ = false

-- The scopes are not empty text, and neither they nor the names in one occur twice.
abbrev pub ScopesValid : Dict (Dict Metric) → Type 0
ScopesValid [] = Unit
ScopesValid ((scope, names) ∷ scopes) =
    (str_eq scope "" ≡ false) × IsDistinct names × ScopesValid scopes

pub record IsValid (m : Metrics) : Type 0 where
  pub names : IsDistinct m.unscoped
  pub scopes : IsDistinct m.scoped
  pub inner : ScopesValid m.scoped

names_at-write_at :
    (s o : Option String) (names : Dict Metric) (m : Metrics)
    → names_at o (write_at s names m) ≡ (if same_scope s o then names else names_at o m)
names_at-write_at none none names m = refl
names_at-write_at none (some y) names m = refl
names_at-write_at (some x) none names m = refl
names_at-write_at (some x) (some y) names m = ground (arith, lookup-insert x y names m.scoped)

-- A write to one namespace is read back there, and leaves the others.
pub resolve-write :
    (scope other : Option String) (names : Dict Metric) (m : Metrics)
    → resolve other (write scope names m)
      ≡ (if same_scope (scope_of scope) (scope_of other) then names else resolve other m)
unfolding resolve write
resolve-write scope other names m = names_at-write_at (scope_of scope) (scope_of other) names m

abbrev pub combine : Option Metric → Option Metric → Option Metric
combine none own = own
combine (some metric) own = some (merge_into metric own)

-- Merging names: what is found is the merge of what was found on both sides.
pub lookup-merge_names :
    (k : String) (b a : Dict Metric)
    → IsDistinct b
    → lookup k (merge_names b a) ≡ combine (lookup k b) (lookup k a)
unfolding merge_names
lookup-merge_names k [] a d = refl
lookup-merge_names k ((name, metric) ∷ b) a d = ground (
  arith,
  lookup-merge_names k b (insert name (merge_into metric (lookup name a)) a) d.1,
  lookup-insert name k (merge_into metric (lookup name a)) a,
  eq_iff name k,
)

ScopesValid-lookup :
    (y : String) (scopes : Dict (Dict Metric))
    → ScopesValid scopes
    → IsDistinct (or_empty (lookup y scopes))
ScopesValid-lookup y [] v = tt
ScopesValid-lookup y ((s, names) ∷ scopes) v = ground (arith, ScopesValid-lookup y scopes v.2)

ScopesValid-insert :
    (s : String) (names : Dict Metric) (scopes : Dict (Dict Metric))
    → str_eq s "" ≡ false
    → IsDistinct names
    → ScopesValid scopes
    → ScopesValid (insert s names scopes)
ScopesValid-insert s names [] e d v = (e, d, tt)
ScopesValid-insert s names ((t, others) ∷ scopes) e d v =
    ground (arith, ScopesValid-insert s names scopes e d v.2)

pub resolve-IsDistinct :
    (scope : Option String) (m : Metrics) → IsValid m → IsDistinct (resolve scope m)
unfolding resolve
resolve-IsDistinct scope m v = go (scope_of scope)
  where
    go : (o : Option String) → IsDistinct (names_at o m)
    go none = v.names
    go (some y) = ScopesValid-lookup y m.scoped v.inner

scope_of-nonempty :
    (scope : Option String) (s : String) → scope_of scope ≡ some s → str_eq s "" ≡ false
scope_of-nonempty none s e = cc
scope_of-nonempty (some t) s e = ground arith

pub write-IsValid :
    (scope : Option String) (names : Dict Metric) (m : Metrics)
    → IsDistinct names
    → IsValid m
    → IsValid (write scope names m)
unfolding write
write-IsValid scope names m d v = go (scope_of scope) (scope_of-nonempty scope)
  where
    go :
        (o : Option String)
        → ((s : String) → o ≡ some s → str_eq s "" ≡ false)
        → IsValid (write_at o names m)
    go none h = record { names = d; scopes = v.scopes; inner = v.inner }
    go (some s) h = record {
      names = v.names;
      scopes = insert-IsDistinct s names m.scoped v.scopes;
      inner = ScopesValid-insert s names m.scoped (h s refl) d v.inner;
    }

-- What is stored for a name in a scope, if anything.
abbrev pub found : String → Option String → Metrics → Option Metric
found name scope m = lookup name (resolve scope m)

unscoped-merge_scopes :
    (scopes : Dict (Dict Metric)) (m : Metrics)
    → ScopesValid scopes
    → (merge_scopes scopes m).unscoped ≡ m.unscoped
unfolding merge_scopes write
unscoped-merge_scopes [] m v = refl
unscoped-merge_scopes ((s, names) ∷ scopes) m v = ground (
  arith,
  unscoped-merge_scopes scopes (write (some s) (merge_names names (resolve (some s) m)) m) v.2,
)

written :
    (s y : String) (names : Dict Metric) (m : Metrics)
    → str_eq s "" ≡ false
    → names_at (some y) (write (some s) names m)
      ≡ (if str_eq s y then names else names_at (some y) m)
unfolding write
written s y names m e = rw e (names_at-write_at (some s) (some y) names m)

resolve-some :
    (s : String) (m : Metrics) → str_eq s "" ≡ false → resolve (some s) m ≡ names_at (some s) m
unfolding resolve
resolve-some s m e = rw e

lookup-merge_scopes :
    (k y : String) (scopes : Dict (Dict Metric)) (m : Metrics)
    → ScopesValid scopes
    → IsDistinct scopes
    → lookup k (names_at (some y) (merge_scopes scopes m))
      ≡ combine (lookup k (or_empty (lookup y scopes))) (lookup k (names_at (some y) m))
unfolding merge_scopes
lookup-merge_scopes k y [] m v d = refl
lookup-merge_scopes k y ((s, names) ∷ scopes) m v d =
    let target = merge_names names (resolve (some s) m) in
    ground (
      arith,
      lookup-merge_scopes k y scopes (write (some s) target m) v.2 d.1,
      written s y target m v.0,
      resolve-some s m v.0,
      lookup-merge_names k names (resolve (some s) m) v.1,
      eq_iff s y,
    )

-- Folding a well-formed collection into another: for each name in each scope, what is then stored
-- is what both stored, merged, or what one of them stored.
pub found-merge :
    (k : String) (scope : Option String) (adjust : Bool) (other m : Metrics)
    → IsValid other
    → found k scope (merge other adjust m) ≡ combine (found k scope other) (found k scope m)
unfolding merge resolve
found-merge k scope adjust other m v = go (scope_of scope)
  where
    start : Metrics
    start = record m {
      empty = m.empty && other.empty;
      started = if adjust then earlier m.started other.started else m.started;
      unscoped = merge_names other.unscoped m.unscoped;
    }

    go :
        (o : Option String)
        → lookup k (names_at o (merge_scopes other.scoped start))
          ≡ combine (lookup k (names_at o other)) (lookup k (names_at o m))
    go none =
        ap (lookup k) (unscoped-merge_scopes other.scoped start v.inner)
        ∙ lookup-merge_names k other.unscoped m.unscoped v.names
    go (some y) = lookup-merge_scopes k y other.scoped start v.inner v.scopes
