-- ===== src/Controller/Finalizing/Deletions.antt =====
-- In which namespaces the instances of a CRD are deleted.
use apiextensions_apiserver.Prelude.{
  refl, inr, eq_iff, inl, Bool-cases, none, contains, ◌||◌, ◌+◌, not, ◌==◌, arith, some, ◌&&◌,
  false, if◌then◌else◌, ◌≡◌, ◌∷◌, Bool, [], ℕ, String, List,
}
use apiextensions_apiserver.Controller.Finalizing.{Instance, deletions}

-- Whether an instance of the list is in the namespace.
abbrev pub lies_in : String → List Instance → Bool
lies_in q [] = false
lies_in q (none ∷ items) = lies_in q items
lies_in q (some namespace ∷ items) = namespace == q || lies_in q items

abbrev pub times : String → List String → ℕ
times q [] = 0
times q (n ∷ ns) = if n == q then 1 + times q ns else times q ns

deletions-once :
    (deleted : List String) (items : List Instance) (q : String)
    → times q (deletions deleted items)
      ≡ (if lies_in q items && not (contains deleted q) then 1 else 0)
unfolding deletions
deletions-once deleted [] q = refl
deletions-once deleted (none ∷ items) q = deletions-once deleted items q
deletions-once deleted (some n ∷ items) q = elim (Bool-cases (contains deleted n)) [
  | inl c ↦ rw (c, deletions-once deleted items q) (ground (arith, eq_iff n q))
  | inr c ↦ rw c (ground (arith, eq_iff n q, deletions-once (n ∷ deleted) items q))
]

-- DeleteCollection is called once in each namespace that has a listed instance, and in no other.
pub deletes_once :
    (items : List Instance) (q : String)
    → times q (deletions [] items) ≡ (if lies_in q items then 1 else 0)
deletes_once items q = ground (arith, deletions-once [] items q)
