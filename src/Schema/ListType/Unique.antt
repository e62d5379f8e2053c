-- ===== src/Schema/ListType/Unique.antt =====
-- validateListSet against a description of the repeated items.
use apiextensions_apiserver.Schema.ListType.Counting.{times_seen-count, same-of, or_zero}
use apiextensions_apiserver.Schema.ListType.Same.{
  same_scalar_trans, same_scalar-sym, same_key_trans, same_key-sym,
}
use Prim.Native.Nat.{suc, zero}
use apiextensions_apiserver.Schema.ListType.Keys.{
  repeated, validate_list_set, find_repeated, key_of, count_key, times_of, SeenKeys, is_once,
  times_seen, same_key, Key, scalar, compound, Item, same_scalar,
}
use apiextensions_apiserver.Schema.Json.{Json}
use apiextensions_apiserver.Prelude.{
  length, ◌≢◌, leb, ap, ◌==◌, nat_eq, String, zero, inr, suc, if◌then◌else◌, ◌∙◌, List, inl,
  Bool-cases, Option, eq_iff, [], ◌∷◌, some, none, true, arith, true, ◌≡◌, ℕ, refl,
}

-- How many of the keys are the same as `q`.
abbrev pub occurrences : Key → List Key → ℕ
occurrences q [] = 0
occurrences q (k ∷ ks) = if same_key k q then suc (occurrences q ks) else occurrences q ks

-- The indices, from `i`, of the keys that are repeated for the first time.
abbrev pub first_repeats : ℕ → List Key → List Key → List ℕ
first_repeats i earlier [] = []
first_repeats i earlier (k ∷ ks) =
    if nat_eq (occurrences k earlier) 1
    then i ∷ first_repeats (suc i) (k ∷ earlier) ks
    else first_repeats (suc i) (k ∷ earlier) ks

abbrev if_any : ℕ → Option ℕ
if_any zero = none
if_any (suc n) = some (suc n)

abbrev Counts : SeenKeys → List Key → Type 0
Counts seen earlier = (q : Key) → times_of q seen ≡ if_any (occurrences q earlier)

times_of-count_key :
    (q k : Key) (seen : SeenKeys)
    → times_of q (count_key k seen)
      ≡ (if same_key k q then some (suc (or_zero (times_of k seen))) else times_of q seen)
unfolding times_of count_key
times_of-count_key (scalar y) (scalar x) seen =
    times_seen-count same_scalar same_scalar-sym same_scalar_trans y x seen.scalars
times_of-count_key (compound t) (compound s) seen =
    times_seen-count ◌==◌ (λ a b. ground (arith, eq_iff a b, eq_iff b a))
      (λ a b c h k. ground (arith, eq_iff a b, eq_iff b c, eq_iff a c)) t s seen.compounds
times_of-count_key (scalar y) (compound s) seen = refl
times_of-count_key (compound t) (scalar x) seen = refl

or_zero-if_any : (n : ℕ) → or_zero (if_any n) ≡ n
or_zero-if_any zero = refl
or_zero-if_any (suc n) = refl

Counts-next :
    (seen : SeenKeys) (earlier : List Key) (k : Key)
    → Counts seen earlier
    → Counts (count_key k seen) (k ∷ earlier)
Counts-next seen earlier k c q = elim (Bool-cases (same_key k q)) [
  | inl e ↦
      times_of-count_key q k seen
      ∙ rw (e, c k, or_zero-if_any (occurrences k earlier))
          (ap (λ (n : ℕ). some (suc n)) (occurrences-same k q earlier e))
  | inr e ↦ times_of-count_key q k seen ∙ rw e (c q)
]
  where
    occurrences-same :
        (k q : Key) (ks : List Key) → same_key k q ≡ true → occurrences k ks ≡ occurrences q ks
    occurrences-same k q [] e = refl
    occurrences-same k q (l ∷ ks) e =
        rw
          (
            same_key-sym l k
                ∙ same-of same_key same_key-sym same_key_trans k q l e
                ∙ same_key-sym q l,
            occurrences-same k q ks e,
          )
          refl

-- The keys of the items, where json.Marshal fails for none of them.
abbrev pub KeysAre : (Json → Option String) → List Item → List Key → Type 0
KeysAre marshal [] [] = Unit
KeysAre marshal (x ∷ xs) (k ∷ ks) = (key_of marshal x ≡ some k) × KeysAre marshal xs ks
KeysAre marshal xs ks = ⊥

is_once-if_any : (n : ℕ) → is_once (if_any n) ≡ nat_eq n 1
is_once-if_any zero = refl
is_once-if_any (suc n) = refl

module _ (marshal : Json → Option String) where
  find_repeated-eq :
      (i : ℕ) (seen : SeenKeys) (earlier : List Key) (xs : List Item) (ks : List Key)
      → Counts seen earlier
      → KeysAre marshal xs ks
      → find_repeated marshal i seen xs ≡ repeated (first_repeats i earlier ks)
  unfolding find_repeated
  find_repeated-eq i seen earlier [] [] c h = refl
  find_repeated-eq i seen earlier (x ∷ xs) (k ∷ ks) c (h, hs) =
      rw
        (
          find_repeated,
          h,
          c k,
          is_once-if_any (occurrences k earlier),
          find_repeated-eq (suc i) (count_key k seen) (k ∷ earlier) xs ks
              (Counts-next seen earlier k c) hs,
        )
        (elim (Bool-cases (nat_eq (occurrences k earlier) 1)) [
          | inl e ↦ rw e refl
          | inr e ↦ rw e refl
        ])
  find_repeated-eq i seen earlier [] (k ∷ ks) c h = absurd h
  find_repeated-eq i seen earlier (x ∷ xs) [] c h = absurd h

  none_yet : Counts (record { scalars = []; compounds = [] }) []
  unfolding times_of times_seen
  none_yet (scalar x) = refl
  none_yet (compound s) = refl

  long : (n : ℕ) → leb (suc (suc n)) 1 ≢ true
  long n h = ground arith

  -- Where json.Marshal fails for no item, validateListSet returns the indices of the items of
  -- which exactly one earlier item is the same: each repeated key is reported once, where it
  -- occurs for the second time. Short lists, which are not looked at, have none.
  pub validate_list_set-eq :
      (xs : List Item) (ks : List Key)
      → KeysAre marshal xs ks
      → validate_list_set marshal xs ≡ repeated (first_repeats 0 [] ks)
  unfolding validate_list_set
  validate_list_set-eq [] [] h = refl
  validate_list_set-eq (x ∷ []) (k ∷ []) h = refl
  validate_list_set-eq (x ∷ y ∷ xs) (k ∷ ks) h = elim (Bool-cases (leb (length (x ∷ y ∷ xs)) 1)) [
    | inl s ↦ absurd (long (length xs) s)
    | inr s ↦ rw s (
        find_repeated-eq 0 (record { scalars = []; compounds = [] }) [] (x ∷ y ∷ xs) (k ∷ ks)
          none_yet h)
  ]
  validate_list_set-eq [] (k ∷ ks) h = absurd h
  validate_list_set-eq (x ∷ xs) [] h = absurd h
  validate_list_set-eq (x ∷ []) (k ∷ l ∷ ks) h = absurd h.1
