-- ===== src/Prelude/Lists.antt =====
-- Lists measured by native numbers, and the predicates and tests that the components share.
use Prim.Native.Nat.{ℕ, suc, zero, ◌+◌}
use Prim.Native.String.{String}
use mathlib.Core.Path.{◌≡◌, refl, ap, subst}
use mathlib.Core.Logic.{◌⊎◌, inl, inr}
use mathlib.Core.Bool.{Bool, true, false, ◌||◌}
use mathlib.Core.List.{List, [], ◌∷◌, ◌++◌}
use mathlib.Core.Option.{Option, none, some}
use native.Mathlib.Omega.{arith}
use text.Mathlib.Text.{◌==◌}

module _ {ℓ} {A : Type ℓ} where
  abbrev pub length : List A → ℕ
  length [] = 0
  length (x ∷ xs) = suc (length xs)

  abbrev pub take : ℕ → List A → List A
  take zero xs = []
  take (suc n) [] = []
  take (suc n) (x ∷ xs) = x ∷ take n xs

  -- The entries of a slice, which may be nil.
  abbrev pub or_nil : Option (List A) → List A
  or_nil none = []
  or_nil (some xs) = xs

  abbrev pub is_empty : List A → Bool
  is_empty [] = true
  is_empty (x ∷ xs) = false

  pub length-append : (xs ys : List A) → length (xs ++ ys) ≡ length xs + length ys
  length-append [] ys = omega arith
  length-append (x ∷ xs) ys = omega (arith, length-append xs ys)

  -- Cutting back to the old length undoes an append.
  pub take-append : (xs ys : List A) → take (length xs) (xs ++ ys) ≡ xs
  take-append [] ys = refl
  take-append (x ∷ xs) ys = ap (λ (t : List A). x ∷ t) (take-append xs ys)

  pub take-length : (xs : List A) → take (length xs) xs ≡ xs
  take-length [] = refl
  take-length (x ∷ xs) = ap (λ (t : List A). x ∷ t) (take-length xs)

-- `for _, y := range xs { if y == x { return true } }; return false`
abbrev pub contains : List String → String → Bool
contains [] x = false
contains (y ∷ ys) x = y == x || contains ys x

pub contains-append :
    (xs ys : List String) (q : String) → contains (xs ++ ys) q ≡ (contains xs q || contains ys q)
contains-append [] ys q = refl
contains-append (x ∷ xs) ys q = ground (arith, contains-append xs ys q)

pub contains-append_left :
    (xs ys : List String) (q : String) → contains xs q ≡ true → contains (xs ++ ys) q ≡ true
contains-append_left xs ys q h = ground (arith, contains-append xs ys q)

pub contains-append_right :
    (xs ys : List String) (q : String) → contains ys q ≡ true → contains (xs ++ ys) q ≡ true
contains-append_right xs ys q h = ground (arith, contains-append xs ys q)

module _ {ℓ κ} {A : Type ℓ} (P : A → Type κ) where
  abbrev pub All : List A → Type κ
  All [] = Unit
  All (x ∷ xs) = P x × All xs

  pub All-append : (xs ys : List A) → All xs → All ys → All (xs ++ ys)
  All-append [] ys h k = k
  All-append (x ∷ xs) ys (p, h) k = (p, All-append xs ys h k)

  pub All-left : (xs ys : List A) → All (xs ++ ys) → All xs
  All-left [] ys h = tt
  All-left (x ∷ xs) ys (p, h) = (p, All-left xs ys h)

  pub All-right : (xs ys : List A) → All (xs ++ ys) → All ys
  All-right [] ys h = h
  All-right (x ∷ xs) ys (p, h) = All-right xs ys h

module _ {ℓ κ μ} {A : Type ℓ} (P : A → Type κ) (Q : A → Type μ) where
  pub All-map : ((x : A) → P x → Q x) → (xs : List A) → All P xs → All Q xs
  All-map f [] h = tt
  All-map f (x ∷ xs) (p, h) = (f x p, All-map f xs h)

module _ {ℓ κ} {A : Type ℓ} (R : A → A → Type κ) where
  -- Any two entries are related, the earlier to the later.
  abbrev pub Pairwise : List A → Type κ
  Pairwise [] = Unit
  Pairwise (x ∷ xs) = All (R x) xs × Pairwise xs

module _ {ℓ} {A : Type ℓ} (P : A → Type 0) where
  abbrev pub Any : List A → Type 0
  Any [] = ⊥
  Any (x ∷ xs) = P x ⊎ Any xs

pub All-found {κ} :
    {A : Type 0} (P : A → Type κ) (xs : List A) (y : A) → All P xs → Any (λ x. x ≡ y) xs → P y
All-found P [] y h no_entry = elim no_entry [ ]
All-found P (x ∷ xs) y (p, h) (inl e) = subst P e p
All-found P (x ∷ xs) y (p, h) (inr later) = All-found P xs y h later

module _ {ℓ κ} {A : Type ℓ} (R : A → A → Type κ) (sym_R : (x y : A) → R x y → R y x) where
  -- An entry is related to all the others.
  pub All-Pairwise_middle :
      (xs : List A) (x : A) (ys : List A) → Pairwise R (xs ++ x ∷ ys) → All (R x) (xs ++ ys)
  All-Pairwise_middle [] x ys h = h.0
  All-Pairwise_middle (w ∷ xs) x ys (h, k) =
      (sym_R w x (All-right (R w) xs (x ∷ ys) h).0, All-Pairwise_middle xs x ys k)

  pub Pairwise-remove :
      (xs : List A) (x : A) (ys : List A) → Pairwise R (xs ++ x ∷ ys) → Pairwise R (xs ++ ys)
  Pairwise-remove [] x ys h = h.1
  Pairwise-remove (w ∷ xs) x ys (h, k) = (
    All-append (R w) xs ys (All-left (R w) xs (x ∷ ys) h) (All-right (R w) xs (x ∷ ys) h).1,
    Pairwise-remove xs x ys k,
  )

  pub Pairwise-insert :
      (xs : List A) (x : A) (ys : List A)
      → Pairwise R (xs ++ ys)
      → All (R x) (xs ++ ys)
      → Pairwise R (xs ++ x ∷ ys)
  Pairwise-insert [] x ys h a = (a, h)
  Pairwise-insert (w ∷ xs) x ys (h, k) (r, a) = (
    All-append (R w) xs (x ∷ ys) (All-left (R w) xs ys h) (sym_R x w r, All-right (R w) xs ys h),
    Pairwise-insert xs x ys k a,
  )
