-- ===== src/Base/Text.antt =====
-- What the program uses of `fmt`, `strings` and `sort`: the verbs %d, %v and %s, `Join`, and
-- `sort.Strings`.
use Prim.Native.Nat.{ℕ, zero, suc, ◌+◌, ◌/◌, ◌%◌, Ordering}
use Prim.Native.String.{String, compare, ◌++◌ as ◌<>◌}
use mathlib.Core.Bool.{Bool, true, false}
use mathlib.Core.List.{List, [], ◌∷◌}
use apprun_dedicated_provisi.Base.Tests.{ltb, nat_beq, if◌then◌else◌}
use apprun_dedicated_provisi.Base.Int.{ℤ, pos, negsuc}

digit : ℕ → String
digit d =
    if nat_beq d 0
    then "0"
    else if nat_beq d 1
    then "1"
    else if nat_beq d 2
    then "2"
    else if nat_beq d 3
    then "3"
    else if nat_beq d 4
    then "4"
    else if nat_beq d 5
    then "5"
    else if nat_beq d 6
    then "6"
    else if nat_beq d 7
    then "7"
    else if nat_beq d 8
    then "8"
    else "9"

-- The digits of `n` in front of `acc`. A 64-bit number has at most 20 digits.
show_digits : ℕ → ℕ → String → String
show_digits zero n acc = acc
show_digits (suc f) n acc =
    let rest = show_digits f (n / 10) (digit (n % 10) <> acc) in
    if ltb n 10 then digit n <> acc else rest

unfoldable pub show_nat : ℕ → String
unfolding digit show_digits
show_nat n = show_digits 20 n ""

-- %d
unfoldable pub show_int : ℤ → String
unfolding show_nat
show_int (pos n) = show_nat n
show_int (negsuc n) = "-" <> show_nat (n + 1)

-- %v of a bool
unfoldable pub show_bool : Bool → String
show_bool true = "true"
show_bool false = "false"

-- strings.Join
unfoldable pub join : List String → String → String
join [] sep = ""
join (x ∷ []) sep = x
join (x ∷ y ∷ xs) sep = x <> sep <> join (y ∷ xs) sep

-- %v of a []string
unfoldable pub show_strings : List String → String
unfolding join
show_strings xs = "[" <> join xs " " <> "]"

-- The strict order of texts by their bytes.
abbrev pub text_lt : String → String → Bool
text_lt s t = elim (compare s t) [ Ordering.lt ↦ true | _ ↦ false ]

-- Insertion sort: an element moves left past all that it is less than, so it stands behind its
-- equals. `sort.Slice` is this sort up to 12 elements; the result of `sort.Strings` does not
-- depend on the algorithm.
module _ {ℓ} {A : Type ℓ} (less : A → A → Bool) where
  insert_sorted : A → List A → List A
  insert_sorted x [] = x ∷ []
  insert_sorted x (y ∷ ys) = if less x y then x ∷ y ∷ ys else y ∷ insert_sorted x ys

  insert_all : List A → List A → List A
  insert_all sorted [] = sorted
  insert_all sorted (x ∷ xs) = insert_all (insert_sorted x sorted) xs

  unfoldable pub insertion_sort : List A → List A
  unfolding insert_all insert_sorted
  insertion_sort xs = insert_all [] xs

-- sort.Strings
unfoldable pub sort_strings : List String → List String
unfolding insertion_sort
sort_strings xs = insertion_sort text_lt xs
