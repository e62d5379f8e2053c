-- ===== src/Schema/Defaulting/Settled.antt =====
-- The loop over the properties leaves every default in place, and the walk that follows keeps it.
use apiextensions_apiserver.Schema.Json.{no_members, find-assign, member, Json, find, Members}
use apiextensions_apiserver.Prelude.{
  arith, none, some, eq_refl, eq_iff, inr, Option, refl, inl, false, ◌==◌, ◌∙◌, ap, Bool-cases, ◌≡◌,
  String,
}
use apiextensions_apiserver.Schema.Structural.{
  generic, no_properties, to, Structural, Ref, property, Properties,
}
use apiextensions_apiserver.Schema.Defaulting.{
  is_non_nullable_null, lacks, is_null, add_default, add_defaults, map_members,
}
use mathlib.Core.Option

-- What counts as present under some key stays so.
abbrev pub Keeps : Members → Members → Type 0
Keeps ms ms' = (k : String) (s : Ref) → lacks (find k ms) s ≡ false → lacks (find k ms') s ≡ false

Keeps-add_default : (j : String) (q : Structural) (ms : Members) → Keeps ms (add_default j q ms)
unfolding add_default
Keeps-add_default j q ms k s h = elim (Bool-cases (is_null (generic q).default)) [
  | inl e ↦ rw e h
  | inr e ↦ elim (Bool-cases (lacks (find j ms) (to q))) [
    | inl l ↦
        rw (e, l, find-assign)
          (elim (Bool-cases (j == k)) [ inl same ↦ rw (same, e) refl | inr other ↦ rw other h ])
    | inr l ↦ rw (e, l) h
  ]
]

pub Keeps-add_defaults : (ps : Properties) (ms : Members) → Keeps ms (add_defaults ps ms)
unfolding add_defaults
Keeps-add_defaults no_properties ms k s h = h
Keeps-add_defaults (property j q ps) ms k s h =
    Keeps-add_defaults ps (add_default j q ms) k s (Keeps-add_default j q ms k s h)

pub find-map_members :
    (f : String → Json → Json) (k : String) (ms : Members)
    → find k (map_members f ms) ≡ Option.map (f k) (find k ms)
unfolding map_members find
find-map_members f k no_members = refl
find-map_members f k (member j v ms) = elim (Bool-cases (j == k)) [
  | inl q ↦ rw (q, (eq_iff j k).0 q) refl
  | inr q ↦ rw q (find-map_members f k ms)
]

module _ (f : String → Json → Json)
    (keeps : (k : String) (v : Json) → is_null v ≡ false → is_null (f k v) ≡ false) where
  lacks-map :
      (k : String) (s : Ref) (o : Option Json)
      → lacks o s ≡ false
      → lacks (Option.map (f k) o) s ≡ false
  unfolding is_non_nullable_null
  lacks-map k s none h = h
  lacks-map k s (some v) h = elim (Bool-cases (is_null v)) [
    | inl e ↦ ground arith
    | inr e ↦ rw (keeps k v e) refl
  ]

  pub Keeps-map_members : (ms : Members) → Keeps ms (map_members f ms)
  Keeps-map_members ms k s h = rw find-map_members (lacks-map k s (find k ms) h)

-- Every property with a default is present.
abbrev pub IsSettled : Properties → Members → Type 0
IsSettled no_properties ms = Unit
IsSettled (property k p ps) ms =
    (is_null (generic p).default ≡ false → lacks (find k ms) (to p) ≡ false) × IsSettled ps ms

IsSettled-Keeps :
    (ps : Properties) (ms ms' : Members) → Keeps ms ms' → IsSettled ps ms → IsSettled ps ms'
IsSettled-Keeps no_properties ms ms' r h = tt
IsSettled-Keeps (property k p ps) ms ms' r (h, hs) =
    ((λ d. r k (to p) (h d)), IsSettled-Keeps ps ms ms' r hs)

present-add_default :
    (k : String) (p : Structural) (ms : Members)
    → is_null (generic p).default ≡ false
    → lacks (find k (add_default k p ms)) (to p) ≡ false
unfolding add_default
present-add_default k p ms e = elim (Bool-cases (lacks (find k ms) (to p))) [
  | inl l ↦ rw (e, l, find-assign, eq_refl k, e) refl
  | inr l ↦ rw (e, l) l
]

pub add_defaults-IsSettled : (ps : Properties) (ms : Members) → IsSettled ps (add_defaults ps ms)
unfolding add_defaults
add_defaults-IsSettled no_properties ms = tt
add_defaults-IsSettled (property k p ps) ms = (
  (λ d. Keeps-add_defaults ps (add_default k p ms) k (to p) (present-add_default k p ms d)),
  add_defaults-IsSettled ps (add_default k p ms),
)

add_default_present :
    (k : String) (p : Structural) (ms : Members)
    → (is_null (generic p).default ≡ false → lacks (find k ms) (to p) ≡ false)
    → add_default k p ms ≡ ms
unfolding add_default
add_default_present k p ms h = elim (Bool-cases (is_null (generic p).default)) [
  | inl e ↦ rw e refl
  | inr e ↦ rw (e, h e) refl
]

-- On a settled object the loop changes nothing.
pub add_defaults_settled :
    (ps : Properties) (ms : Members) → IsSettled ps ms → add_defaults ps ms ≡ ms
unfolding add_defaults
add_defaults_settled no_properties ms h = refl
add_defaults_settled (property k p ps) ms (h, hs) =
    ap (add_defaults ps) (add_default_present k p ms h) ∙ add_defaults_settled ps ms hs

-- The loop over the properties, after both loops have run, changes nothing.
pub add_defaults_again :
    (f : String → Json → Json)
    (keeps : (k : String) (v : Json) → is_null v ≡ false → is_null (f k v) ≡ false)
    (ps : Properties) (ms : Members)
    → add_defaults ps (map_members f (add_defaults ps ms)) ≡ map_members f (add_defaults ps ms)
add_defaults_again f keeps ps ms = add_defaults_settled ps _ (
    IsSettled-Keeps ps _ _ (Keeps-map_members f keeps (add_defaults ps ms))
      (add_defaults-IsSettled ps ms))
