-- ===== src/Sql/Memory.antt =====
-- A table kept as the list of its rows: an instance that meets the laws, on which the tests run.
use evoblue_video_mcp.Prelude.{
  Bool, true, List, [], ◌∷◌, ◌++◌, ◌≡◌, ◌↔◌, refl, map, not, select, All, if◌then◌else◌, inl, inr,
  Bool-cases, length, suc, ap, ◌∙◌,
}
use evoblue_video_mcp.Sql.{Sql, IsLawful, IsOrder, IsSorted, apply_where}

module _ {R : Type 0} (le : R → R → Bool) where
  unfoldable pub insert_in_order : R → List R → List R
  insert_in_order r [] = r ∷ []
  insert_in_order r (s ∷ rs) =
      let rest = insert_in_order r rs in if le r s then r ∷ s ∷ rs else s ∷ rest

  unfoldable pub insertion_sort : List R → List R
  unfolding insert_in_order
  insertion_sort [] = []
  insertion_sort (r ∷ rs) = insert_in_order r (insertion_sort rs)

  length-insert_in_order : (r : R) (rs : List R) → length (insert_in_order r rs) ≡ suc (length rs)
  unfolding insert_in_order
  length-insert_in_order r [] = refl
  length-insert_in_order r (s ∷ rs) = elim (Bool-cases (le r s)) [
    | inl e ↦ rw e refl
    | inr e ↦ rw (e, length-insert_in_order r rs) refl
  ]

  length-insertion_sort : (rs : List R) → length (insertion_sort rs) ≡ length rs
  unfolding insertion_sort
  length-insertion_sort [] = refl
  length-insertion_sort (r ∷ rs) =
      length-insert_in_order r (insertion_sort rs) ∙ ap suc (length-insertion_sort rs)

  module _ (P : R → Type 0) where
    insert_keeps : (r : R) (rs : List R) → P r × All P rs ↔ All P (insert_in_order r rs)
    unfolding insert_in_order
    insert_keeps r [] = ((λ h. h), (λ h. h))
    insert_keeps r (s ∷ rs) = elim (Bool-cases (le r s)) [
      | inl e ↦ rw e ((λ h. h), (λ h. h))
      | inr e ↦ rw e (
        (λ h. (h.1.0, (insert_keeps r rs).0 (h.0, h.1.1))),
        (λ h. (((insert_keeps r rs).1 h.1).0, (h.0, ((insert_keeps r rs).1 h.1).1))),
      )
    ]

    pub sort_keeps : (rs : List R) → All P rs ↔ All P (insertion_sort rs)
    unfolding insertion_sort
    sort_keeps [] = ((λ h. h), (λ h. h))
    sort_keeps (r ∷ rs) = (
      (λ h. (insert_keeps r (insertion_sort rs)).0 (h.0, (sort_keeps rs).0 h.1)),
      (λ h. (
        ((insert_keeps r (insertion_sort rs)).1 h).0,
        (sort_keeps rs).1 ((insert_keeps r (insertion_sort rs)).1 h).1,
      )),
    )

  module _ (order : IsOrder le) where
    above :
        (a b : R) (rs : List R)
        → le a b ≡ true
        → All (λ s. le b s ≡ true) rs
        → All (λ s. le a s ≡ true) rs
    above a b [] h k = tt
    above a b (s ∷ rs) h k = (order.trans a b s h k.0, above a b rs h k.1)

    insert_sorts : (r : R) (rs : List R) → IsSorted le rs → IsSorted le (insert_in_order r rs)
    unfolding insert_in_order
    insert_sorts r [] h = (tt, tt)
    insert_sorts r (s ∷ rs) h = elim (Bool-cases (le r s)) [
      | inl e ↦ rw e ((e, above r s rs e h.0), h)
      | inr e ↦ rw e (
        (insert_keeps (λ x. le s x ≡ true) r rs).0 (order.total r s e, h.0),
        insert_sorts r rs h.1,
      )
    ]

    sort_sorts : (rs : List R) → IsSorted le (insertion_sort rs)
    unfolding insertion_sort
    sort_sorts [] = tt
    sort_sorts (r ∷ rs) = insert_sorts r (insertion_sort rs) (sort_sorts rs)

abbrev pub memory : Sql
memory = record {
  Table = λ R. List R;
  rows = λ t. t;
  insert = λ r t. t ++ r ∷ [];
  update = λ p f t. (map (apply_where p f) t, map f (select p t));
  delete = λ p t. select (λ r. not (p r)) t;
  order_by = λ le rs. insertion_sort le rs;
}

pub memory-IsLawful : IsLawful memory
memory-IsLawful = record {
  rows-insert = λ r t. refl;
  rows-update = λ p f t. refl;
  returning-update = λ p f t. refl;
  rows-delete = λ p t. refl;
  order_by-keeps = λ P le rs. sort_keeps le P rs;
  length-order_by = λ le rs. length-insertion_sort le rs;
  order_by-sorts = λ le rs o. sort_sorts le o rs;
}
