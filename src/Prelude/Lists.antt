-- ===== src/Prelude/Lists.antt =====
-- Lists measured by native numbers, executable filters and predicates over every member.
use Prim.Native.Nat.{ℕ, zero, suc}
use mathlib.Core.Path.{refl, ◌≡◌, subst, sym, ◌∙◌}
use mathlib.Core.Logic.{inl, inr}
use mathlib.Core.Bool.{Bool, true, false, ◌&&◌, ◌||◌, not, false≢true}
use mathlib.Core.Option.{Option, none, some}
use mathlib.Core.List.{
  List, [], ◌∷◌, ◌++◌, map, Mem, mem-cons_self, mem-cons_of_mem, mem-append_right,
}
use evoblue_video_mcp.Prelude.Tests.{if◌then◌else◌, Bool-cases}

module _ {ℓ} {A : Type ℓ} where
  abbrev pub length : List A → ℕ
  length [] = 0
  length (x ∷ xs) = suc (length xs)

  abbrev pub take : ℕ → List A → List A
  take zero xs = []
  take (suc n) [] = []
  take (suc n) (x ∷ xs) = x ∷ take n xs

  abbrev pub drop : ℕ → List A → List A
  drop zero xs = xs
  drop (suc n) [] = []
  drop (suc n) (x ∷ xs) = drop n xs

  -- The members that pass a test, in their order.
  abbrev pub select : (A → Bool) → List A → List A
  select p [] = []
  select p (x ∷ xs) = let rest = select p xs in if p x then x ∷ rest else rest

  -- `next((x for x in xs if p x), None)`
  abbrev pub first : (A → Bool) → List A → Option A
  first p [] = none
  first p (x ∷ xs) = let rest = first p xs in if p x then some x else rest

  abbrev pub any : (A → Bool) → List A → Bool
  any p [] = false
  any p (x ∷ xs) = p x || any p xs

abbrev pub All {ℓ κ} : {A : Type ℓ} → (A → Type κ) → List A → Type κ
All P [] = Unit
All P (x ∷ xs) = P x × All P xs

pub some_eq {ℓ} : {A : Type ℓ} (a b : A) → some a ≡ some b → a ≡ b
some_eq a b e = cc

pub or_of : (a b : Bool) → (a ≡ true → b ≡ true) → (not a || b) ≡ true
or_of true b h = h refl
or_of false b h = refl

module _ {ℓ κ} {A : Type ℓ} (P : A → Type κ) where
  pub All-append : (xs ys : List A) → All P xs → All P ys → All P (xs ++ ys)
  All-append [] ys h k = k
  All-append (x ∷ xs) ys h k = (h.0, All-append xs ys h.1 k)

  pub All-map : (f : A → A) (xs : List A) → ((x : A) → P x → P (f x)) → All P xs → All P (map f xs)
  All-map f [] k h = tt
  All-map f (x ∷ xs) k h = (k x h.0, All-map f xs k h.1)

  pub All-select : (p : A → Bool) (xs : List A) → All P xs → All P (select p xs)
  All-select p [] h = tt
  All-select p (x ∷ xs) h = elim (Bool-cases (p x)) [
    | inl e ↦ rw e (h.0, All-select p xs h.1)
    | inr e ↦ rw e (All-select p xs h.1)
  ]

  pub All-first : (p : A → Bool) (xs : List A) (x : A) → All P xs → first p xs ≡ some x → P x
  All-first p [] x h e = cc
  All-first p (y ∷ xs) x h e = elim (Bool-cases (p y)) [
    | inl t ↦ let found : some y ≡ some x = rw t at e in subst P (some_eq y x found) h.0
    | inr t ↦ All-first p xs x h.1 (rw t at e)
  ]

module _ {ℓ} {A : Type ℓ} where
  pub first-passes : (p : A → Bool) (xs : List A) (x : A) → first p xs ≡ some x → p x ≡ true
  first-passes p [] x e = cc
  first-passes p (y ∷ xs) x e = elim (Bool-cases (p y)) [
    | inl t ↦
        let found : some y ≡ some x = rw t at e in subst (λ z. p z ≡ true) (some_eq y x found) t
    | inr t ↦ first-passes p xs x (rw t at e)
  ]

  pub select_passes : (p : A → Bool) (xs : List A) → All (λ x. p x ≡ true) (select p xs)
  select_passes p [] = tt
  select_passes p (x ∷ xs) = elim (Bool-cases (p x)) [
    | inl e ↦ rw e (e, select_passes p xs)
    | inr e ↦ rw e (select_passes p xs)
  ]

  pub select-nil : (p : A → Bool) (xs : List A) → select p xs ≡ [] → All (λ x. p x ≡ false) xs
  select-nil p [] h = tt
  select-nil p (x ∷ xs) h = elim (Bool-cases (p x)) [
    | inl e ↦ let k : x ∷ select p xs ≡ [] = rw e at h in cc k
    | inr e ↦ (e, select-nil p xs (rw e at h))
  ]

  -- What holds of the selected members holds of the members that pass.
  pub of_select {κ} :
      (P : A → Type κ) (p : A → Bool) (xs : List A)
      → All P (select p xs)
      → All (λ x. p x ≡ true → P x) xs
  of_select P p [] h = tt
  of_select P p (x ∷ xs) h = elim (Bool-cases (p x)) [
    | inl e ↦ let k : P x × All P (select p xs) = rw e at h in ((λ _. k.0), of_select P p xs k.1)
    | inr e ↦ ((λ t. absurd (false≢true (sym e ∙ t))), of_select P p xs (rw e at h))
  ]

  pub All-both {κ μ ν} :
      (P : A → Type κ) (Q : A → Type μ) (R : A → Type ν) (xs : List A)
      → ((x : A) → P x → Q x → R x)
      → All P xs
      → All Q xs
      → All R xs
  All-both P Q R [] k h g = tt
  All-both P Q R (x ∷ xs) k h g = (k x h.0 g.0, All-both P Q R xs k h.1 g.1)

  pub All-every {κ} : (P : A → Type κ) (xs : List A) → ((x : A) → P x) → All P xs
  All-every P [] k = tt
  All-every P (x ∷ xs) k = (k x, All-every P xs k)

  pub All-imp {κ μ} :
      (P : A → Type κ) (Q : A → Type μ) (xs : List A) → ((x : A) → P x → Q x) → All P xs → All Q xs
  All-imp P Q [] k h = tt
  All-imp P Q (x ∷ xs) k h = (k x h.0, All-imp P Q xs k h.1)

module _ {ℓ} {A : Type ℓ} where
  pub All-Mem : (xs : List A) → All (λ x. Mem x xs) xs
  All-Mem [] = tt
  All-Mem (x ∷ xs) = (
    mem-cons_self,
    All-imp (λ y. Mem y xs) (λ y. Mem y (x ∷ xs)) xs (λ y m. mem-cons_of_mem x m) (All-Mem xs),
  )

  pub Mem-last : (xs : List A) (x : A) → Mem x (xs ++ x ∷ [])
  Mem-last xs x = mem-append_right xs mem-cons_self

  -- What holds of the members that pass holds of the selected members.
  pub to_select {κ} :
      (P : A → Type κ) (p : A → Bool) (xs : List A)
      → All (λ x. p x ≡ true → P x) xs
      → All P (select p xs)
  to_select P p [] h = tt
  to_select P p (x ∷ xs) h = elim (Bool-cases (p x)) [
    | inl e ↦ rw e (h.0 e, to_select P p xs h.1)
    | inr e ↦ rw e (to_select P p xs h.1)
  ]

  -- A test that fails on all selected members fails together with that of the selection.
  pub select-false :
      (p q : A → Bool) (xs : List A)
      → All (λ x. q x ≡ false) (select p xs)
      → All (λ x. (p x && q x) ≡ false) xs
  select-false p q [] h = tt
  select-false p q (x ∷ xs) h = elim (Bool-cases (p x)) [
    | inl e ↦
        let k : (q x ≡ false) × All (λ x. q x ≡ false) (select p xs) = rw e at h in
        (rw e k.0, select-false p q xs k.1)
    | inr e ↦ (rw e refl, select-false p q xs (rw e at h))
  ]
