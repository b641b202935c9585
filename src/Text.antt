-- ===== src/Text.antt =====
-- Ordered texts: `Vec<String>::sort` and `dedup`, of the standard library. Rust compares the UTF-8
-- bytes of two strings, which gives the order of their code points.
pub mod Sorted
pub mod Forms
use Prim.Native.Char.{code}
use booking_backend.Prelude.{ℕ, String, Bool, true, false, List, [], ◌∷◌, ltb, ◌==◌, if◌then◌else◌}

abbrev pub codes : String → List ℕ
codes String.[] = []
codes (String.◌∷◌ c s) = code c ∷ codes s

pub codes_leb : List ℕ → List ℕ → Bool
codes_leb [] ys = true
codes_leb (x ∷ xs) [] = false
codes_leb (x ∷ xs) (y ∷ ys) =
    let rest = codes_leb xs ys in if ltb x y then true else if ltb y x then false else rest

pub text_leb : String → String → Bool
text_leb s t = codes_leb (codes s) (codes t)

pub insert : String → List String → List String
insert x [] = x ∷ []
insert x (y ∷ ys) = if text_leb x y then x ∷ y ∷ ys else y ∷ insert x ys

-- `v.sort()`
pub sort : List String → List String
sort [] = []
sort (x ∷ xs) = insert x (sort xs)

-- `x`, unless the list begins with it.
pub push_new : String → List String → List String
push_new x [] = x ∷ []
push_new x (y ∷ ys) = if x == y then y ∷ ys else x ∷ y ∷ ys

-- `v.dedup()`: of equal neighbours one is kept.
pub dedup : List String → List String
dedup [] = []
dedup (x ∷ xs) = push_new x (dedup xs)

unfoldable pub sort_dedup : List String → List String
unfolding codes_leb text_leb insert sort push_new dedup
sort_dedup xs = dedup (sort xs)

abbrev pub contains : String → List String → Bool
contains s [] = false
contains s (x ∷ xs) = if x == s then true else contains s xs
