-- ===== src/Crd/Helpers/Lookups.antt =====
-- Finalizers and versions.
use apiextensions_apiserver.Crd.{Crd, Version}
use apiextensions_apiserver.Prelude.{
  ◌∙◌, ap, sym, refl, inr, eq_iff, arith, inl, false, [], ◌==◌, none, Bool-cases, if◌then◌else◌,
  ◌≡◌, contains, ◌∷◌, String, List,
}
use apiextensions_apiserver.Crd.Helpers.{
  crd_remove_finalizer, some_served, has_version_served, find_version, without,
  has_served_crd_version, crd_has_finalizer, served_named,
}

contains-without :
    (f needle : String) (fs : List String)
    → contains (without needle fs) f ≡ (if needle == f then false else contains fs f)
unfolding without
contains-without f needle [] = ground arith
contains-without f needle (g ∷ fs) =
    ground (arith, contains-without f needle fs, eq_iff needle f, eq_iff g f, eq_iff g needle)

-- After CRDRemoveFinalizer the finalizer is gone, and every other one is there as before.
pub has-remove_finalizer :
    (crd : Crd) (needle f : String)
    → crd_has_finalizer (crd_remove_finalizer crd needle) f
      ≡ (if needle == f then false else crd_has_finalizer crd f)
unfolding crd_has_finalizer crd_remove_finalizer
has-remove_finalizer crd needle f = contains-without f needle crd.finalizers

-- Every version has a name of its own.
abbrev pub OwnNames : List Version → Type 0
OwnNames [] = Unit
OwnNames (v ∷ vs) = (find_version v.name vs ≡ none) × OwnNames vs

not-some_served :
    (version : String) (vs : List Version)
    → find_version version vs ≡ none
    → some_served version vs ≡ false
unfolding find_version some_served
not-some_served version [] h = refl
not-some_served version (v ∷ vs) h = elim (Bool-cases (version == v.name)) [
  | inl e ↦ cc (rw e at h)
  | inr e ↦ ground (arith, eq_iff version v.name, eq_iff v.name version, not-some_served version vs)
]

served_named-eq-some_served :
    (version : String) (vs : List Version)
    → OwnNames vs
    → served_named version vs ≡ some_served version vs
unfolding served_named some_served
served_named-eq-some_served version [] u = refl
served_named-eq-some_served version (v ∷ vs) (fresh, u) = elim (Bool-cases (v.name == version)) [
  | inl e ↦ rw e (elim (Bool-cases (v.served)) [
    | inl s ↦ rw s refl
    | inr s ↦ rw s (
        sym (
          not-some_served version vs
            (ap (λ (n : String). find_version n vs) (sym ((eq_iff v.name version).0 e)) ∙ fresh)))
  ])
  | inr e ↦ ground (arith, served_named-eq-some_served version vs)
]

-- HasServedCRDVersion, which stops at the first version of the name, and HasVersionServed, which
-- looks for a served one, agree on a CRD whose versions have names of their own.
pub has_served-eq-has_version_served :
    (crd : Crd) (version : String)
    → OwnNames crd.spec.versions
    → has_served_crd_version crd version ≡ has_version_served crd version
unfolding has_served_crd_version has_version_served
has_served-eq-has_version_served crd version u =
    served_named-eq-some_served version crd.spec.versions u
