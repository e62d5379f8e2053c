-- ===== src/Prelude/GoStd.antt =====
-- What the program calls of Go's standard library: strconv.Itoa, strings.Join(_, ""),
-- sort.Strings, strings.HasSuffix and strconv.Quote.
use Prim.Native.Nat.{ℕ, suc, zero, ◌/◌, ◌%◌, Ordering}
use Prim.Native.String
use Prim.Native.Char.{code}
use Prim.Native.String.{String}
use mathlib.Core.Logic.{◌≢◌, inl, inr}
use mathlib.Core.Path.{◌≡◌, refl}
use mathlib.Core.Bool.{Bool, true, false, ◌||◌}
use mathlib.Core.List.{List, [], ◌∷◌}
use text.Mathlib.Text.{◌==◌}
use apiextensions_apiserver.Prelude.Tests.{Bool-cases, nat_eq, ltb, if◌then◌else◌}

abbrev digit : ℕ → String
digit zero = "0"
digit (suc zero) = "1"
digit (suc (suc zero)) = "2"
digit (suc (suc (suc zero))) = "3"
digit (suc (suc (suc (suc zero)))) = "4"
digit (suc (suc (suc (suc (suc zero))))) = "5"
digit (suc (suc (suc (suc (suc (suc zero)))))) = "6"
digit (suc (suc (suc (suc (suc (suc (suc zero))))))) = "7"
digit (suc (suc (suc (suc (suc (suc (suc (suc zero)))))))) = "8"
digit n = "9"

itoa_fuel : ℕ → ℕ → String
itoa_fuel zero n = ""
itoa_fuel (suc f) n =
    let front = itoa_fuel f (n / 10) in
    if ltb n 10 then digit n else String.◌++◌ front (digit (n % 10))

-- strconv.Itoa; a number has at most as many digits as its successor
unfoldable pub itoa : ℕ → String
unfolding itoa_fuel
itoa n = itoa_fuel (suc n) n

-- strings.Join(parts, "")
unfoldable pub join : List String → String
join [] = ""
join (s ∷ parts) = String.◌++◌ s (join parts)

abbrev le : String → String → Bool
le s t = elim (String.compare s t) [ Ordering.gt ↦ false | _ ↦ true ]

insert : String → List String → List String
insert s [] = s ∷ []
insert s (t ∷ ts) = let rest = insert s ts in if le s t then s ∷ t ∷ ts else t ∷ rest

-- sort.Strings
unfoldable pub sort_strings : List String → List String
unfolding insert
sort_strings [] = []
sort_strings (s ∷ ss) = insert s (sort_strings ss)

-- strings.HasSuffix
unfoldable pub has_suffix : String → String → Bool
has_suffix String.[] suffix = suffix == ""
has_suffix (String.◌∷◌ c s) suffix =
    let rest = has_suffix s suffix in if String.◌∷◌ c s == suffix then true else rest

hex : ℕ → String
hex n =
    if ltb n 10
    then digit n
    else if nat_eq n 10
    then "a"
    else if nat_eq n 11
    then "b"
    else if nat_eq n 12
    then "c"
    else if nat_eq n 13
    then "d"
    else if nat_eq n 14
    then "e"
    else "f"

escape : ℕ → String → String
unfolding hex
escape n c =
    if nat_eq n 7
    then "\\a"
    else if nat_eq n 8
    then "\\b"
    else if nat_eq n 9
    then "\\t"
    else if nat_eq n 10
    then "\\n"
    else if nat_eq n 11
    then "\\v"
    else if nat_eq n 12
    then "\\f"
    else if nat_eq n 13
    then "\\r"
    else if nat_eq n 34
    then "\\\""
    else if nat_eq n 92
    then "\\\\"
    else if ltb n 32 || nat_eq n 127
    then String.◌++◌ "\\x" (String.◌++◌ (hex (n / 16)) (hex (n % 16)))
    else c

quote_body : String → String
unfolding escape
quote_body String.[] = "\""
quote_body (String.◌∷◌ c s) = String.◌++◌ (escape (code c) (String.◌∷◌ c "")) (quote_body s)

-- strconv.Quote. A character above 127 is taken to be printable.
unfoldable pub quote : String → String
unfolding quote_body
quote s = String.◌++◌ "\"" (quote_body s)

quote_escapes : quote "a\"b" ≡ "\"a\\\"b\""
unfolding quote
quote_escapes = refl

itoa_digits : itoa 1907 ≡ "1907"
unfolding itoa
itoa_digits = refl

sort_strings_sorts : sort_strings ("b" ∷ "a[2]" ∷ "a" ∷ []) ≡ "a" ∷ "a[2]" ∷ "b" ∷ []
unfolding sort_strings
sort_strings_sorts = refl

has_suffix_tail : has_suffix "policy.k8s.io" ".k8s.io" ≡ true
unfolding has_suffix
has_suffix_tail = refl

insert-ne-nil : (s : String) (ts : List String) → insert s ts ≢ []
unfolding insert
insert-ne-nil s [] h = cc
insert-ne-nil s (t ∷ ts) h = elim (Bool-cases (le s t)) [
  | inl e ↦ cc (rw e at h)
  | inr e ↦ cc (rw e at h)
]

pub nil-of-sort_strings : (ss : List String) → sort_strings ss ≡ [] → ss ≡ []
unfolding sort_strings
nil-of-sort_strings [] h = refl
nil-of-sort_strings (s ∷ ss) h = absurd (insert-ne-nil s _ h)
