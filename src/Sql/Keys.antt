-- ===== src/Sql/Keys.antt =====
-- Unique keys: at most one row of a table passes a test, and what the statements do to that.
use mathlib.Core.Path.{subst}
use evoblue_video_mcp.Prelude.{
  Bool, true, false, ◌&&◌, inl, inr, none, some, List, [], ◌∷◌, ◌++◌, map, first, any, select, All,
  All-append, some_eq, Bool-cases, if◌then◌else◌, ◌≡◌, refl,
}
use evoblue_video_mcp.Sql.{apply_where}

module _ {R : Type 0} where
  abbrev pub AtMostOne : (R → Bool) → List R → Type 0
  AtMostOne p [] = Unit
  AtMostOne p (x ∷ xs) = (p x ≡ true → All (λ y. p y ≡ false) xs) × AtMostOne p xs

  -- the row that is read is the only one with its key
  pub first-IsOnly :
      (p : R → Bool) (xs : List R) (x : R)
      → AtMostOne p xs
      → first p xs ≡ some x
      → All (λ y. p y ≡ true → y ≡ x) xs
  first-IsOnly p [] x h e = tt
  first-IsOnly p (y ∷ xs) x h e = elim (Bool-cases (p y)) [
    | inl t ↦
        let found : some y ≡ some x = rw t at e in ((λ _. some_eq y x found), others xs (h.0 t))
    | inr t ↦ ((λ k. cc), first-IsOnly p xs x h.1 (rw t at e))
  ]
    where
      others : (ys : List R) → All (λ z. p z ≡ false) ys → All (λ z. p z ≡ true → z ≡ x) ys
      others [] k = tt
      others (z ∷ ys) k = ((λ t. cc (t, k.0)), others ys k.1)

  pub none-map :
      (p : R → Bool) (g : R → R) (xs : List R)
      → All (λ x. p x ≡ false → p (g x) ≡ false) xs
      → All (λ y. p y ≡ false) xs
      → All (λ y. p y ≡ false) (map g xs)
  none-map p g [] keeps h = tt
  none-map p g (x ∷ xs) keeps h = (keeps.0 h.0, none-map p g xs keeps.1 h.1)

  pub AtMostOne-map :
      (p : R → Bool) (g : R → R) (xs : List R)
      → All (λ x. p x ≡ false → p (g x) ≡ false) xs
      → AtMostOne p xs
      → AtMostOne p (map g xs)
  AtMostOne-map p g [] keeps h = tt
  AtMostOne-map p g (x ∷ xs) keeps h = (
    (λ t. elim (Bool-cases (p x)) [
      | inl e ↦ none-map p g xs keeps.1 (h.0 e)
      | inr e ↦ cc (t, keeps.0 e)
    ]),
    AtMostOne-map p g xs keeps.1 h.1,
  )

  pub AtMostOne-insert :
      (p : R → Bool) (xs : List R) (x : R)
      → (p x ≡ true → All (λ y. p y ≡ false) xs)
      → AtMostOne p xs
      → AtMostOne p (xs ++ x ∷ [])
  AtMostOne-insert p [] x k h = ((λ _. tt), tt)
  AtMostOne-insert p (y ∷ xs) x k h = elim (Bool-cases (p x)) [
    | inl e ↦ ((λ t. cc (t, (k e).0)), AtMostOne-insert p xs x (λ t. (k t).1) h.1)
    | inr e ↦ (
      (λ t. All-append (λ z. p z ≡ false) xs (x ∷ []) (h.0 t) (e, tt)),
      AtMostOne-insert p xs x (λ t. (k t).1) h.1,
    )
  ]

  none-select :
      (p q : R → Bool) (xs : List R)
      → All (λ y. p y ≡ false) xs
      → All (λ y. p y ≡ false) (select q xs)
  none-select p q [] h = tt
  none-select p q (x ∷ xs) h = elim (Bool-cases (q x)) [
    | inl e ↦ rw e (h.0, none-select p q xs h.1)
    | inr e ↦ rw e (none-select p q xs h.1)
  ]

  pub AtMostOne-select : (p q : R → Bool) (xs : List R) → AtMostOne p xs → AtMostOne p (select q xs)
  AtMostOne-select p q [] h = tt
  AtMostOne-select p q (x ∷ xs) h = elim (Bool-cases (q x)) [
    | inl e ↦ rw e ((λ t. none-select p q xs (h.0 t)), AtMostOne-select p q xs h.1)
    | inr e ↦ rw e (AtMostOne-select p q xs h.1)
  ]

  -- the rows that a guard selects which names the key of the row read
  pub select-IsOnly :
      (p q : R → Bool) (xs : List R) (x : R)
      → AtMostOne p xs
      → first p xs ≡ some x
      → select (λ r. p r && q r) xs ≡ (if q x then x ∷ [] else [])
  select-IsOnly p q [] x h e = cc
  select-IsOnly p q (y ∷ xs) x h e = elim (Bool-cases (p y)) [
    | inr t ↦ rw t (select-IsOnly p q xs x h.1 (rw t at e))
    | inl t ↦
        let found : some y ≡ some x = rw t at e in
        rw t (
          rw (nothing xs (h.0 t)) (
            subst (λ z. (if q y then y ∷ [] else []) ≡ (if q z then z ∷ [] else []))
              (some_eq y x found) refl))
  ]
    where
      nothing : (ys : List R) → All (λ z. p z ≡ false) ys → select (λ r. p r && q r) ys ≡ []
      nothing [] k = refl
      nothing (z ∷ ys) k = rw k.0 (nothing ys k.1)

  pub first-keeps :
      (p : R → Bool) (g : R → R) (xs : List R) (x : R)
      → All (λ y. p (g y) ≡ p y) xs
      → first p xs ≡ some x
      → first p (map g xs) ≡ some (g x)
  first-keeps p g [] x keeps e = cc
  first-keeps p g (y ∷ xs) x keeps e = elim (Bool-cases (p y)) [
    | inl t ↦
        let found : some y ≡ some x = rw t at e in
        rw (keeps.0, t) (subst (λ z. some (g y) ≡ some (g z)) (some_eq y x found) refl)
    | inr t ↦ rw (keeps.0, t) (first-keeps p g xs x keeps.1 (rw t at e))
  ]

  pub first-absent : (p : R → Bool) (xs : List R) → first p xs ≡ none → All (λ y. p y ≡ false) xs
  first-absent p [] e = tt
  first-absent p (y ∷ xs) e = elim (Bool-cases (p y)) [
    | inl t ↦ let k : some y ≡ none = rw t at e in cc k
    | inr t ↦ (t, first-absent p xs (rw t at e))
  ]

  pub first-none : (p : R → Bool) (xs : List R) → All (λ y. p y ≡ false) xs → first p xs ≡ none
  first-none p [] h = refl
  first-none p (y ∷ xs) h = rw h.0 (first-none p xs h.1)

  pub first-insert :
      (p : R → Bool) (xs : List R) (x : R)
      → first p xs ≡ none
      → p x ≡ true
      → first p (xs ++ x ∷ []) ≡ some x
  first-insert p [] x e t = rw t refl
  first-insert p (y ∷ xs) x e t = elim (Bool-cases (p y)) [
    | inl k ↦ let impossible : some y ≡ none = rw k at e in cc impossible
    | inr k ↦ rw k (first-insert p xs x (rw k at e) t)
  ]

  pub any-none : (p : R → Bool) (xs : List R) → any p xs ≡ false → All (λ y. p y ≡ false) xs
  any-none p [] e = tt
  any-none p (y ∷ xs) e = elim (Bool-cases (p y)) [
    | inl t ↦ let k : true ≡ false = rw t at e in cc k
    | inr t ↦ (t, any-none p xs (rw t at e))
  ]

  -- an update justified at the rows that it hits
  pub All-where {κ} :
      (P : R → Type κ) (p : R → Bool) (f : R → R) (xs : List R)
      → All (λ r. p r ≡ true → P r → P (f r)) xs
      → All P xs
      → All P (map (apply_where p f) xs)
  All-where P p f [] h k = tt
  All-where P p f (x ∷ xs) h k = elim (Bool-cases (p x)) [
    | inl e ↦ rw e (h.0 e k.0, All-where P p f xs h.1 k.1)
    | inr e ↦ rw e (k.0, All-where P p f xs h.1 k.1)
  ]
