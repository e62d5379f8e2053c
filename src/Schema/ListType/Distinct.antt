-- ===== src/Schema/ListType/Distinct.antt =====
-- When validateListSet finds nothing.
use apiextensions_apiserver.Schema.ListType.Counting.{same-of}
use apiextensions_apiserver.Schema.ListType.Same.{same_key_trans, same_key-sym}
use apiextensions_apiserver.Schema.ListType.Unique.{
  validate_list_set-eq, KeysAre, occurrences, first_repeats,
}
use apiextensions_apiserver.Prelude.{
  ap, All-map, ◌↔◌, inr, inl, sym, Bool-cases, false, true, ◌∙◌, nat_eq, refl, ◌≢◌, [], arith, ◌≡◌,
  String, ◌∷◌, All, Pairwise, Option, List, ℕ,
}
use apiextensions_apiserver.Schema.Json.{Json}
use apiextensions_apiserver.Schema.ListType.Keys.{
  internal_error, Verdict, repeated, validate_list_set, Item, same_key, Key,
}
use Prim.Native.Nat.{suc, ◌≤◌}

abbrev pub Different : Key → Key → Type 0
Different k l = same_key k l ≡ false

-- Each key differs from the earlier ones.
abbrev New : List Key → List Key → Type 0
New earlier [] = Unit
New earlier (k ∷ ks) = All (Different k) earlier × New (k ∷ earlier) ks

occurrences-zero : (k : Key) (ks : List Key) → All (Different k) ks → occurrences k ks ≡ 0
occurrences-zero k [] h = refl
occurrences-zero k (l ∷ ks) (d, h) = rw (same_key-sym l k ∙ d) (occurrences-zero k ks h)

Different-of-zero : (k : Key) (ks : List Key) → occurrences k ks ≡ 0 → All (Different k) ks
Different-of-zero k [] h = tt
Different-of-zero k (l ∷ ks) h = elim (Bool-cases (same_key l k)) [
  | inl e ↦ absurd (no_suc (occurrences k ks) (rw e at h))
  | inr e ↦ (same_key-sym k l ∙ e, Different-of-zero k ks (rw e at h))
]
  where
    no_suc : (n : ℕ) → suc n ≢ 0
    no_suc n h = ground arith

at_most_once : (k : Key) (ks : List Key) → Pairwise Different ks → occurrences k ks ≤ 1
at_most_once k [] h = omega arith
at_most_once k (l ∷ ks) (d, h) = elim (Bool-cases (same_key l k)) [
  | inl e ↦
      rw
        (e, occurrences-zero k ks (All-map (Different l) (Different k) (λ m q. differs m e q) ks d))
        (omega arith)
  | inr e ↦ rw e (at_most_once k ks h)
]
  where
    differs : (m : Key) → same_key l k ≡ true → Different l m → Different k m
    differs m e q = sym (same-of same_key same_key-sym same_key_trans l k m e) ∙ q

New-of-nil :
    (i : ℕ) (earlier ks : List Key)
    → Pairwise Different earlier
    → first_repeats i earlier ks ≡ []
    → New earlier ks
New-of-nil i earlier [] d h = tt
New-of-nil i earlier (k ∷ ks) d h = elim (Bool-cases (nat_eq (occurrences k earlier) 1)) [
  | inl e ↦ cc (rw e at h)
  | inr e ↦
      let fresh : All (Different k) earlier =
        Different-of-zero k earlier
          (none_left (occurrences k earlier) (at_most_once k earlier d) e) in
      (fresh, New-of-nil (suc i) (k ∷ earlier) ks (fresh, d) (rw e at h))
]
  where
    none_left : (n : ℕ) → n ≤ 1 → nat_eq n 1 ≡ false → n ≡ 0
    none_left n le e = ground arith

nil-of-New : (i : ℕ) (earlier ks : List Key) → New earlier ks → first_repeats i earlier ks ≡ []
nil-of-New i earlier [] h = refl
nil-of-New i earlier (k ∷ ks) (d, h) =
    rw (occurrences-zero k earlier d) (nil-of-New (suc i) (k ∷ earlier) ks h)

Pairwise-of-New :
    (earlier ks : List Key)
    → New earlier ks
    → Pairwise Different ks × All (λ l. All (Different l) ks) earlier
Pairwise-of-New earlier [] h = (tt, all_nil earlier)
  where
    all_nil : (ls : List Key) → All (λ l. All (Different l) []) ls
    all_nil [] = tt
    all_nil (l ∷ ls) = (tt, all_nil ls)
Pairwise-of-New earlier (k ∷ ks) (d, h) =
    let (p, (a, b)) = Pairwise-of-New (k ∷ earlier) ks h in ((a, p), zip earlier d b)
  where
    zip :
        (ls : List Key)
        → All (Different k) ls
        → All (λ l. All (Different l) ks) ls
        → All (λ l. All (Different l) (k ∷ ks)) ls
    zip [] x y = tt
    zip (l ∷ ls) (x, xs) (y, ys) = ((same_key-sym l k ∙ x, y), zip ls xs ys)

New-of-Pairwise :
    (earlier ks : List Key)
    → Pairwise Different ks
    → All (λ l. All (Different l) ks) earlier
    → New earlier ks
New-of-Pairwise earlier [] h a = tt
New-of-Pairwise earlier (k ∷ ks) (d, h) a =
    let (x, y) = unzip earlier a in (x, New-of-Pairwise (k ∷ earlier) ks h (d, y))
  where
    unzip :
        (ls : List Key)
        → All (λ l. All (Different l) (k ∷ ks)) ls
        → All (Different k) ls × All (λ l. All (Different l) ks) ls
    unzip [] x = (tt, tt)
    unzip (l ∷ ls) ((x, y), zs) = let (u, v) = unzip ls zs in ((same_key-sym k l ∙ x, u), (y, v))

-- Where json.Marshal fails for no item, validateListSet finds nothing exactly when no two items
-- are the same.
pub nothing_repeated_iff :
    (marshal : Json → Option String) (xs : List Item) (ks : List Key)
    → KeysAre marshal xs ks
    → (validate_list_set marshal xs ≡ repeated []) ↔ Pairwise Different ks
nothing_repeated_iff marshal xs ks h = (
  (λ e.
      (Pairwise-of-New [] ks
        (New-of-nil 0 [] ks tt (indices_eq (sym (validate_list_set-eq marshal xs ks h) ∙ e)))).0),
  (λ p.
      validate_list_set-eq marshal xs ks h
      ∙ ap (λ (is : List ℕ). repeated is) (nil-of-New 0 [] ks (New-of-Pairwise [] ks p tt))),
)
  where
    indices : Verdict → List ℕ
    indices (repeated is) = is
    indices (internal_error i) = []

    indices_eq : {v w : List ℕ} → repeated v ≡ repeated w → v ≡ w
    indices_eq e = ap indices e
