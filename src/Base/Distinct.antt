-- ===== src/Base/Distinct.antt =====
-- Lists of texts in which nothing stands twice: a set or the keys of a dict, in the order of insertion.
use Prim.Native.Nat.{suc, ◌≤◌}
use mathlib.Core.Path.{◌≡◌, refl}
use mathlib.Core.Bool.{true, false, ◌||◌}
use mathlib.Core.List.{List, [], ◌∷◌, ◌++◌}
use Prim.Native.String.{String}
use native.Mathlib.Omega.{arith}
use text.Mathlib.Text.{◌==◌ as str_eq}
use text.Mathlib.TextEquality.{eq_iff as str_eq_iff}
use adaptive_agent_orchestra.Base.Tests.{if◌then◌else◌, or_false}
use adaptive_agent_orchestra.Base.Lists.{length}
use adaptive_agent_orchestra.Base.Text.{
  contains, Subset, has_duplicates, contains-cons, contains-cons_self, ne_of_contains,
}

-- `if x not in seen: seen.append(x)`.
abbrev pub add_new : List String → String → List String
add_new seen x = if contains x seen then seen else seen ++ x ∷ []

-- The keys of a dict that has `seen` and then gets `xs`.
abbrev pub add_all : List String → List String → List String
add_all seen [] = seen
add_all seen (x ∷ xs) = add_all (add_new seen x) xs

pub contains-++ :
    (k : String) (xs ys : List String) → contains k (xs ++ ys) ≡ (contains k xs || contains k ys)
contains-++ k [] ys = refl
contains-++ k (x ∷ xs) ys = ground (arith, contains-++ k xs ys)

pub has_duplicates-snoc :
    (xs : List String) (x : String)
    → contains x xs ≡ false
    → has_duplicates xs ≡ false
    → has_duplicates (xs ++ x ∷ []) ≡ false
has_duplicates-snoc [] x fresh h = refl
has_duplicates-snoc (y ∷ ys) x fresh h =
    ground
      (arith, has_duplicates-snoc ys x, contains-++ y ys (x ∷ []), str_eq_iff y x, str_eq_iff x y)

pub contains-add_new :
    (k : String) (seen : List String) (x : String)
    → contains k (add_new seen x) ≡ (contains k seen || str_eq k x)
contains-add_new k seen x = ground (arith, contains-++ k seen (x ∷ []), str_eq_iff k x)

pub has_duplicates-add_new :
    (seen : List String) (x : String)
    → has_duplicates seen ≡ false
    → has_duplicates (add_new seen x) ≡ false
has_duplicates-add_new seen x h = ground (arith, has_duplicates-snoc seen x)

pub contains-add_all :
    (k : String) (seen xs : List String)
    → contains k (add_all seen xs) ≡ (contains k seen || contains k xs)
contains-add_all k seen [] = ground arith
contains-add_all k seen (x ∷ xs) =
    ground (arith, contains-add_all k (add_new seen x) xs, contains-add_new k seen x)

pub has_duplicates-add_all :
    (seen xs : List String) → has_duplicates seen ≡ false → has_duplicates (add_all seen xs) ≡ false
has_duplicates-add_all seen [] h = h
has_duplicates-add_all seen (x ∷ xs) h =
    has_duplicates-add_all (add_new seen x) xs (has_duplicates-add_new seen x h)

-- The list without the first item that is `x`.
abbrev pub remove : String → List String → List String
remove x [] = []
remove x (y ∷ ys) = if str_eq x y then ys else y ∷ remove x ys

length-remove :
    (x : String) (ys : List String) → contains x ys ≡ true → suc (length (remove x ys)) ≡ length ys
length-remove x [] h = ground arith
length-remove x (y ∷ ys) h = ground (arith, length-remove x ys)

contains-remove :
    (k x : String) (ys : List String)
    → str_eq k x ≡ false
    → contains k ys ≡ true
    → contains k (remove x ys) ≡ true
contains-remove k x [] ne h = h
contains-remove k x (y ∷ ys) ne h =
    ground (arith, contains-remove k x ys, str_eq_iff x y, str_eq_iff k x, str_eq_iff k y)

-- A list without duplicates is no longer than a list that holds all its items.
pub length-Subset :
    (xs ys : List String) → has_duplicates xs ≡ false → Subset xs ys → length xs ≤ length ys
length-Subset [] ys distinct sub = omega arith
length-Subset (x ∷ xs) ys distinct sub =
    let fresh = or_false (contains x xs) (has_duplicates xs) distinct in
    let rest : Subset xs (remove x ys) = λ k m.
      contains-remove k x ys (ne_of_contains x k xs m fresh.0) (sub k (contains-cons k x xs m)) in
    omega (
      arith,
      length-remove x ys (sub x (contains-cons_self x xs)),
      length-Subset xs (remove x ys) fresh.1 rest,
    )
