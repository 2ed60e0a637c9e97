-- ===== src/Base/Text.antt =====
-- Texts as identities: membership, duplicates and Python's `not value.strip()`.
use Prim.Native.Nat.{ℕ}
use Prim.Native.Char.{code}
use Prim.Native.String.{String}
use mathlib.Core.Path.{◌≡◌, sym, ap, subst}
use mathlib.Core.Logic.{◌⊎◌, inl, inr}
use mathlib.Core.Bool.{Bool, true, false, ◌&&◌, ◌||◌}
use mathlib.Core.List.{List, [], ◌∷◌, ◌++◌}
use native.Mathlib.Omega.{arith}
use text.Mathlib.Text.{◌==◌ as str_eq}
use text.Mathlib.TextEquality.{eq_iff}
use text.Mathlib.TextPositions.{eq_refl}
use adaptive_agent_orchestra.Base.Tests.{leb, ◌==◌, Bool-cases}
use adaptive_agent_orchestra.Base.Lists.{All}

-- `str.isspace` of one character, by its code point.
abbrev pub is_space : ℕ → Bool
is_space c =
    (leb 9 c && leb c 13)
    || ((leb 28 c && leb c 32)
        || (c == 0x85
            || (c == 0xa0
                || (c == 0x1680
                    || ((leb 0x2000 c && leb c 0x200a)
                        || (c == 0x2028
                            || (c == 0x2029 || (c == 0x202f || (c == 0x205f || c == 0x3000)))))))))

-- `not value.strip()`: nothing is left when the spaces at both ends are taken off.
unfoldable pub is_blank : String → Bool
is_blank String.[] = true
is_blank (String.◌∷◌ c s) = is_space (code c) && is_blank s

-- `k in xs`, for a list, a tuple, a set or the keys of a dict.
abbrev pub contains : String → List String → Bool
contains k [] = false
contains k (x ∷ xs) = str_eq k x || contains k xs

-- Every text of the first list is in the second.
abbrev pub Subset : List String → List String → Type 0
Subset xs ys = (k : String) → contains k xs ≡ true → contains k ys ≡ true

pub contains-cons_self : (k : String) (xs : List String) → contains k (k ∷ xs) ≡ true
contains-cons_self k xs = simp eq_refl

pub contains-cons :
    (k x : String) (xs : List String) → contains k xs ≡ true → contains k (x ∷ xs) ≡ true
contains-cons k x xs h = ground arith

pub contains-cons_cases :
    (k x : String) (xs : List String)
    → contains k (x ∷ xs) ≡ true
    → (k ≡ x) ⊎ (contains k xs ≡ true)
contains-cons_cases k x xs h = ground (arith, eq_iff k x)

pub All_of_contains {ℓ} :
    (P : String → Type ℓ) (k : String) (xs : List String) → All P xs → contains k xs ≡ true → P k
All_of_contains P k [] h e = cc
All_of_contains P k (x ∷ xs) h e = elim (contains-cons_cases k x xs e) [
  | inl same ↦ subst P (sym same) h.0
  | inr later ↦ All_of_contains P k xs h.1 later
]

pub All-of_each {ℓ} :
    (P : String → Type ℓ) (xs : List String)
    → ((k : String) → contains k xs ≡ true → P k)
    → All P xs
All-of_each P [] h = tt
All-of_each P (k ∷ xs) h =
    (h k (contains-cons_self k xs), All-of_each P xs (λ j m. h j (contains-cons j k xs m)))

pub ne_of_contains :
    (j k : String) (xs : List String)
    → contains k xs ≡ true
    → contains j xs ≡ false
    → str_eq k j ≡ false
ne_of_contains j k xs h f = elim (Bool-cases (str_eq k j)) [
  | inl same ↦ cc (ap (λ t. contains t xs) ((eq_iff k j).0 same))
  | inr other ↦ other
]

-- `len(xs) != len(set(xs))`.
abbrev pub has_duplicates : List String → Bool
has_duplicates [] = false
has_duplicates (x ∷ xs) = contains x xs || has_duplicates xs

pub contains-append : (k : String) (xs ys : List String) → contains k (xs ++ k ∷ ys) ≡ true
contains-append k [] ys = contains-cons_self k ys
contains-append k (x ∷ xs) ys = contains-cons k x (xs ++ k ∷ ys) (contains-append k xs ys)
