-- ===== src/Sql.antt =====
-- The database that the repository is written over. SQLAlchemy and SQLite are not part of the
-- repository: a table is an abstract type, and its laws are the documented meaning of `SELECT`,
-- `INSERT`, `UPDATE ... WHERE ... RETURNING` and `DELETE ... WHERE`.
pub mod Memory
pub mod Keys
use evoblue_video_mcp.Prelude.{
  length, Bool, true, false, List, [], ◌∷◌, ◌++◌, ◌≡◌, ◌↔◌, map, not, select, All, if◌then◌else◌,
}

pub record Sql : Type 1 where
  pub Table : Type 0 → Type 0
  -- The rows in the order of their primary keys.
  pub rows : {R : Type 0} → Table R → List R
  pub insert : {R : Type 0} → R → Table R → Table R
  -- The table after the update, and the updated rows that `RETURNING` reads.
  pub update : {R : Type 0} → (R → Bool) → (R → R) → Table R → Table R × List R
  pub delete : {R : Type 0} → (R → Bool) → Table R → Table R
  -- `ORDER BY`, with the comparison of its keys
  pub order_by : {R : Type 0} → (R → R → Bool) → List R → List R

-- Each row comes before all that follow it.
abbrev pub IsSorted : {R : Type 0} → (R → R → Bool) → List R → Type 0
IsSorted le [] = Unit
IsSorted le (r ∷ rs) = All (λ s. le r s ≡ true) rs × IsSorted le rs

-- A comparison by keys: total and transitive.
pub record IsOrder {R : Type 0} (le : R → R → Bool) : Type 0 where
  pub total : (a b : R) → le a b ≡ false → le b a ≡ true
  pub trans : (a b c : R) → le a b ≡ true → le b c ≡ true → le a c ≡ true

abbrev pub apply_where : {R : Type 0} → (R → Bool) → (R → R) → R → R
apply_where p f r = if p r then f r else r

pub record IsLawful (S : Sql) : Type 1 where
  pub rows-insert :
      {R : Type 0} (r : R) (t : S.Table R) → S.rows (S.insert r t) ≡ S.rows t ++ r ∷ []
  pub rows-update :
      {R : Type 0} (p : R → Bool) (f : R → R) (t : S.Table R)
      → S.rows (S.update p f t).0 ≡ map (apply_where p f) (S.rows t)
  pub returning-update :
      {R : Type 0} (p : R → Bool) (f : R → R) (t : S.Table R)
      → (S.update p f t).1 ≡ map f (select p (S.rows t))
  pub rows-delete :
      {R : Type 0} (p : R → Bool) (t : S.Table R)
      → S.rows (S.delete p t) ≡ select (λ r. not (p r)) (S.rows t)
  -- `ORDER BY` keeps the rows, and sorts them.
  pub order_by-keeps :
      {R : Type 0} (P : R → Type 0) (le : R → R → Bool) (rs : List R)
      → All P rs ↔ All P (S.order_by le rs)
  pub length-order_by :
      {R : Type 0} (le : R → R → Bool) (rs : List R) → length (S.order_by le rs) ≡ length rs
  pub order_by-sorts :
      {R : Type 0} (le : R → R → Bool) (rs : List R) → IsOrder le → IsSorted le (S.order_by le rs)
