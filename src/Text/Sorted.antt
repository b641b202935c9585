-- ===== src/Text/Sorted.antt =====
-- `sort_dedup` keeps the members of a list, and puts them in order with no neighbours equal.
use booking_backend.Prelude.{
  ℕ, String, true, false, List, [], ◌∷◌, ◌≡◌, ◌≢◌, ◌⊎◌, ◌↔◌, inl, inr, refl, subst, arith, ◌==◌,
  eq_iff, In, Bool-cases,
}
use booking_backend.Text.{
  codes, codes_leb, text_leb, insert, sort, push_new, dedup, sort_dedup, contains,
}

codes_leb_total : (xs ys : List ℕ) → codes_leb xs ys ≡ false → codes_leb ys xs ≡ true
unfolding codes_leb
codes_leb_total [] ys h = cc
codes_leb_total (x ∷ xs) [] h = refl
codes_leb_total (x ∷ xs) (y ∷ ys) h = ground (arith, codes_leb_total xs ys)

In-insert : (a x : String) (ys : List String) → In a (insert x ys) ↔ ((a ≡ x) ⊎ In a ys)
unfolding insert
In-insert a x [] = (λ h. h, λ h. h)
In-insert a x (y ∷ ys) = elim (Bool-cases (text_leb x y)) [
  | inl e ↦ rw e (λ h. h, λ h. h)
  | inr e ↦ let ih = In-insert a x ys in rw e (λ h. ground (arith, ih.0), λ h. ground (arith, ih.1))
]

In-sort : (a : String) (xs : List String) → In a (sort xs) ↔ In a xs
unfolding sort
In-sort a [] = (λ h. h, λ h. h)
In-sort a (x ∷ xs) =
    let ih = In-sort a xs in
    let at = In-insert a x (sort xs) in
    (λ h. ground (arith, at.0 h, ih.0), λ h. at.1 (ground (arith, ih.1)))

In-push_new : (a x : String) (ys : List String) → In a (push_new x ys) ↔ ((a ≡ x) ⊎ In a ys)
unfolding push_new
In-push_new a x [] = (λ h. h, λ h. h)
In-push_new a x (y ∷ ys) = elim (Bool-cases (x == y)) [
  | inl e ↦ let same : x ≡ y = (eq_iff x y).0 e in rw e (λ h. inr h, λ h. ground (arith, same))
  | inr e ↦ rw e (λ h. h, λ h. h)
]

In-dedup : (a : String) (xs : List String) → In a (dedup xs) ↔ In a xs
unfolding dedup
In-dedup a [] = (λ h. h, λ h. h)
In-dedup a (x ∷ xs) =
    let ih = In-dedup a xs in
    let at = In-push_new a x (dedup xs) in
    (λ h. ground (arith, at.0 h, ih.0), λ h. at.1 (ground (arith, ih.1)))

-- Sorting and removing duplicates keeps exactly the members.
pub In-sort_dedup : (a : String) (xs : List String) → In a (sort_dedup xs) ↔ In a xs
unfolding sort_dedup
In-sort_dedup a xs = (
  λ h. (In-sort a xs).0 ((In-dedup a (sort xs)).0 h),
  λ h. (In-dedup a (sort xs)).1 ((In-sort a xs).1 h),
)

pub contains-In : (a : String) (xs : List String) → contains a xs ≡ true → In a xs
contains-In a [] h = cc
contains-In a (x ∷ xs) h = ground (arith, eq_iff x a, contains-In a xs)

pub In-contains : (a : String) (xs : List String) → In a xs → contains a xs ≡ true
In-contains a [] h = elim h [ ]
In-contains a (x ∷ xs) h = ground (arith, eq_iff x a, In-contains a xs)

-- Neighbours are in order, and (for `StrictlySorted`) different.
abbrev pub Head : (String → Type 0) → List String → Type 0
Head P [] = Unit
Head P (x ∷ xs) = P x

abbrev pub IsSorted : List String → Type 0
IsSorted [] = Unit
IsSorted (x ∷ xs) = Head (λ y. text_leb x y ≡ true) xs × IsSorted xs

abbrev pub IsSortedNew : List String → Type 0
IsSortedNew [] = Unit
IsSortedNew (x ∷ xs) = Head (λ y. (text_leb x y ≡ true) × (x ≢ y)) xs × IsSortedNew xs

text_leb_total : (x y : String) → text_leb x y ≡ false → text_leb y x ≡ true
unfolding text_leb
text_leb_total x y = codes_leb_total (codes x) (codes y)

insert-IsSorted : (x : String) (ys : List String) → IsSorted ys → IsSorted (insert x ys)
unfolding insert
insert-IsSorted x [] s = ground arith
insert-IsSorted x (y ∷ []) s = ground (arith, text_leb_total x y)
insert-IsSorted x (y ∷ z ∷ ys) s =
    ground (arith, text_leb_total x y, insert-IsSorted x (z ∷ ys) s.1)

sort-IsSorted : (xs : List String) → IsSorted (sort xs)
unfolding sort
sort-IsSorted [] = tt
sort-IsSorted (x ∷ xs) = insert-IsSorted x (sort xs) (sort-IsSorted xs)

-- The head of what `push_new` gives is `x`, and `x` differs from what follows it.
push_new-IsSortedNew :
    (x : String) (ys : List String)
    → Head (λ y. text_leb x y ≡ true) ys
    → IsSortedNew ys
    → IsSortedNew (push_new x ys)
unfolding push_new
push_new-IsSortedNew x [] h s = (tt, tt)
push_new-IsSortedNew x (y ∷ ys) h s = ground (arith, eq_iff x y)

Head-push_new : (P : String → Type 0) (x : String) (ys : List String) → P x → Head P (push_new x ys)
unfolding push_new
Head-push_new P x [] p = p
Head-push_new P x (y ∷ ys) p = elim (Bool-cases (x == y)) [
  | inl e ↦ rw e (subst P ((eq_iff x y).0 e) p)
  | inr e ↦ rw e p
]

Head-dedup : (P : String → Type 0) (xs : List String) → Head P xs → Head P (dedup xs)
unfolding dedup
Head-dedup P [] h = tt
Head-dedup P (x ∷ xs) h = Head-push_new P x (dedup xs) h

dedup-IsSortedNew : (xs : List String) → IsSorted xs → IsSortedNew (dedup xs)
unfolding dedup
dedup-IsSortedNew [] s = tt
dedup-IsSortedNew (x ∷ xs) s =
    push_new-IsSortedNew x (dedup xs) (Head-dedup (λ y. text_leb x y ≡ true) xs s.0)
      (dedup-IsSortedNew xs s.1)

-- The result is in order, and of two neighbours none is equal.
pub sort_dedup-IsSortedNew : (xs : List String) → IsSortedNew (sort_dedup xs)
unfolding sort_dedup
sort_dedup-IsSortedNew xs = dedup-IsSortedNew (sort xs) (sort-IsSorted xs)
