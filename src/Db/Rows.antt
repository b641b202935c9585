-- ===== src/Db/Rows.antt =====
-- Lemmas on `UPDATE … WHERE`, `DELETE … WHERE` and a search of a table.
use booking_backend.Prelude.{
  ◌≡◌, refl, any, subst, sym, ◌⊎◌, inl, inr, Bool, true, false, some, List, [], ◌∷◌, ◌++◌, arith,
  find, keep, In, All, Bool-cases,
}
use booking_backend.Db.{update_where, delete_where}

module _ {A : Type 0} where
  -- Where the update undoes its own condition, no row meets the condition afterwards.
  pub update_where-none :
      (p : A → Bool) (f : A → A)
      → ((x : A) → p (f x) ≡ false)
      → (y : A) (xs : List A) → In y (update_where p f xs)
      → p y ≡ false
  update_where-none p f undone y [] h = absurd h
  update_where-none p f undone y (x ∷ xs) h = elim (Bool-cases (p x)) [
    | inl e ↦ elim (rw e at h) [
      | inl g ↦ rw g (undone x)
      | inr g ↦ update_where-none p f undone y xs g
    ]
    | inr e ↦ elim (rw e at h) [ inl g ↦ rw g e | inr g ↦ update_where-none p f undone y xs g ]
  ]

  -- A row after an update is the image of a row that met the condition, or a row that did not.
  pub In-update_where :
      (p : A → Bool) (f : A → A) (y : A) (xs : List A)
      → In y (update_where p f xs)
      → ((x : A) × In x xs × (p x ≡ true) × (y ≡ f x)) ⊎ (In y xs × (p y ≡ false))
  In-update_where p f y [] h = absurd h
  In-update_where p f y (x ∷ xs) h = elim (Bool-cases (p x)) [
    | inl e ↦ elim (rw e at h) [
      | inl g ↦ inl (x, inl refl, e, g)
      | inr g ↦ weaken x xs (In-update_where p f y xs g)
    ]
    | inr e ↦ elim (rw e at h) [
      | inl g ↦ inr (inl g, rw g e)
      | inr g ↦ weaken x xs (In-update_where p f y xs g)
    ]
  ]
    where
      weaken :
          (x : A) (xs : List A)
          → ((z : A) × In z xs × (p z ≡ true) × (y ≡ f z)) ⊎ (In y xs × (p y ≡ false))
          → ((z : A) × In z (x ∷ xs) × (p z ≡ true) × (y ≡ f z)) ⊎ (In y (x ∷ xs) × (p y ≡ false))
      weaken x xs (inl (z, i, e, g)) = inl (z, inr i, e, g)
      weaken x xs (inr (i, e)) = inr (inr i, e)

  pub In-delete_where :
      (p : A → Bool) (y : A) (xs : List A) → In y (delete_where p xs) → In y xs × (p y ≡ false)
  In-delete_where p y [] h = absurd h
  In-delete_where p y (x ∷ xs) h = elim (Bool-cases (p x)) [
    | inl e ↦ let (i, g) = In-delete_where p y xs (rw e at h) in (inr i, g)
    | inr e ↦ elim (rw e at h) [
      | inl g ↦ (inl g, rw g e)
      | inr g ↦ let (i, k) = In-delete_where p y xs g in (inr i, k)
    ]
  ]

  pub any-In : (p : A → Bool) (y : A) (xs : List A) → any p xs ≡ false → In y xs → p y ≡ false
  any-In p y [] h i = absurd i
  any-In p y (x ∷ xs) h i = elim (Bool-cases (p x)) [
    | inl e ↦ absurd (ground arith)
    | inr e ↦ elim i [ inl g ↦ rw g e | inr g ↦ any-In p y xs (rw e at h) g ]
  ]

  pub In-append : (y : A) (xs ys : List A) → In y (xs ++ ys) → In y xs ⊎ In y ys
  In-append y [] ys h = inr h
  In-append y (x ∷ xs) ys h = ground (arith, In-append y xs ys)

  pub All-In : (P : A → Type 0) (y : A) (xs : List A) → All P xs → In y xs → P y
  All-In P y [] all h = absurd h
  All-In P y (x ∷ xs) all h = elim h [
    | inl e ↦ subst P (sym e) all.0
    | inr e ↦ All-In P y xs all.1 e
  ]

  pub find-holds : (p : A → Bool) (x : A) (xs : List A) → find p xs ≡ some x → p x ≡ true
  find-holds p x [] h = absurd (ground arith)
  find-holds p x (y ∷ ys) h = elim (Bool-cases (p y)) [
    | inl e ↦ let same : y ≡ x = ground arith in subst (λ (z : A). p z ≡ true) same e
    | inr e ↦ find-holds p x ys (rw e at h)
  ]

  pub find-In : (p : A → Bool) (x : A) (xs : List A) → find p xs ≡ some x → In x xs
  find-In p x [] h = absurd (ground arith)
  find-In p x (y ∷ ys) h = elim (Bool-cases (p y)) [
    | inl e ↦ inl (ground arith)
    | inr e ↦ inr (find-In p x ys (rw e at h))
  ]

  -- Where an update keeps the rows that it finds among those that it finds, the first of them is the
  -- image of the first before.
  pub find-update_where :
      (p : A → Bool) (f : A → A)
      → ((x : A) → p x ≡ true → p (f x) ≡ true)
      → (y : A) (xs : List A) → find p (update_where p f xs) ≡ some y
      → (x : A) × (find p xs ≡ some x) × (y ≡ f x)
  find-update_where p f stays y [] h = absurd (ground arith)
  find-update_where p f stays y (x ∷ xs) h = elim (Bool-cases (p x)) [
    | inl e ↦
        let still = stays x e in
        let first : some (f x) ≡ some y = rw (e, still) at h in (x, rw e, ground arith)
    | inr e ↦
        let (z, found, same) = find-update_where p f stays y xs (rw (e, e) at h) in
        (z, rw e found, same)
  ]

  pub find-append :
      (p : A → Bool) (y : A) (xs ys : List A) → find p xs ≡ some y → find p (xs ++ ys) ≡ some y
  find-append p y [] ys h = absurd (ground arith)
  find-append p y (x ∷ xs) ys h = elim (Bool-cases (p x)) [
    | inl e ↦ rw e (rw e at h)
    | inr e ↦ rw e (find-append p y xs ys (rw e at h))
  ]

  -- A table without a row that meets a condition is searched in vain.
  pub keep-none : (p : A → Bool) (xs : List A) → keep p xs ≡ [] → (y : A) → In y xs → p y ≡ false
  keep-none p [] h y i = absurd i
  keep-none p (x ∷ xs) h y i = elim (Bool-cases (p x)) [
    | inl e ↦ absurd (ground arith)
    | inr e ↦ elim i [ inl g ↦ rw g e | inr g ↦ keep-none p xs (rw e at h) y g ]
  ]
