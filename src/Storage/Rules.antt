-- ===== src/Storage/Rules.antt =====
-- The rules by which an operation on the job table is shown to keep the table consistent and to move
-- its rows only as one operation may.
use mathlib.Core.Path.{subst}
use evoblue_video_mcp.Prelude.{
  ◌==◌, Bool, true, false, ◌⊎◌, inl, inr, some, List, [], ◌∷◌, String, str_eq, map, first, All,
  All-first, some_eq, Bool-cases, Option-cases, ◌≡◌, refl, sym, arith,
}
use evoblue_video_mcp.Outcome.{Outcome}
use evoblue_video_mcp.Sql.{Sql, IsLawful, apply_where}
use evoblue_video_mcp.Storage.Models.{Job}
use evoblue_video_mcp.Storage.Session.{get, settle, compare_and_swap, with_job}
use evoblue_video_mcp.Storage.Invariant.{
  IsValid, IsKept, Moves, Moves-refl, Evolves, Evolves-map, Evolves-refl, clash, Distinct,
  Distinct-map, IsConsistent,
}

-- a row that an operation may turn into another
abbrev pub RowStep : Job → Job → Type 0
RowStep x y = IsValid x → IsValid y × Moves x y

key_clash : (a b : Job) → (a.id == b.id) ≡ true → clash a b ≡ true
key_clash a b e = ground arith

key_clash_sym : (a b : Job) → (a.id == b.id) ≡ true → clash b a ≡ true
key_clash_sym a b e = ground arith

abbrev IsOnly : Job → Job → Type 0
IsOnly job r = (r.id == job.id) ≡ true → r ≡ job

IsOnly-key :
    (job : Job) (rows : List Job) → All (λ y. clash job y ≡ false) rows → All (IsOnly job) rows
IsOnly-key job [] h = tt
IsOnly-key job (r ∷ rows) h = ((λ e. cc (key_clash_sym r job e, h.0)), IsOnly-key job rows h.1)

-- The job that was read is the only row with its primary key.
pub get_only :
    (job_id : String) (job : Job) (rows : List Job)
    → Distinct rows
    → first (λ j. str_eq j.job_id job_id) rows ≡ some job
    → All (λ r. (r.id == job.id) ≡ true → r ≡ job) rows
get_only job_id job [] d e = tt
get_only job_id job (r ∷ rows) d e = elim (Bool-cases (str_eq r.job_id job_id)) [
  | inl t ↦
      let found : some r ≡ some job = rw t at e in
      let here : r ≡ job = some_eq r job found in
      ((λ _. here), subst (λ j. All (IsOnly j) rows) here (IsOnly-key r rows d.0))
  | inr t ↦
      let found : first (λ j. str_eq j.job_id job_id) rows ≡ some job = rw t at e in
      let apart : clash r job ≡ false =
        All-first (λ y. clash r y ≡ false) (λ j. str_eq j.job_id job_id) rows job d.0 found in
      ((λ k. cc (key_clash r job k, apart)), get_only job_id job rows d.1 found)
]

module _ (S : Sql) where
  -- the table keeps its invariant, and each row makes at most one move
  abbrev pub Respects : S.Table Job → S.Table Job → Type 0
  Respects t t' =
      IsConsistent (S.rows t) → IsConsistent (S.rows t') × Evolves Moves (S.rows t) (S.rows t')

  pub Respects-refl : (t : S.Table Job) → Respects t t
  Respects-refl t h = (h, Evolves-refl Moves Moves-refl (S.rows t))

  -- a compare-and-swap leaves the table or writes the update
  pub swap_cases {ℓ} :
      {A : Type ℓ} (p : Job → Bool) (f : Job → Job) (lost : Outcome A)
      (won : S.Table Job → Outcome A) (t : S.Table Job)
      → ((compare_and_swap S p f lost won t).1 ≡ t)
        ⊎ ((compare_and_swap S p f lost won t).1 ≡ (S.update p f t).0)
  unfolding compare_and_swap
  swap_cases p f lost won t = go (S.update p f t)
    where
      go :
          (u : S.Table Job × List Job)
          → ((settle u lost won t).1 ≡ t) ⊎ ((settle u lost won t).1 ≡ u.0)
      go (t', []) = inl refl
      go (t', r ∷ []) = inr refl
      go (t', r ∷ s ∷ more) = inl refl

rows_step :
    (g : Job → Job) (xs : List Job)
    → All (λ x. RowStep x (g x)) xs
    → All IsValid xs
    → All IsValid (map g xs) × All (λ x. Moves x (g x)) xs
rows_step g [] h v = (tt, tt)
rows_step g (x ∷ xs) h v =
    let (valid, moves) = h.0 v.0 in
    let (rest, more) = rows_step g xs h.1 v.1 in ((valid, rest), (moves, more))

All-IsKept :
    (g : Job → Job) (xs : List Job) → All (λ x. Moves x (g x)) xs → All (λ x. IsKept x (g x)) xs
All-IsKept g [] h = tt
All-IsKept g (x ∷ xs) h = (h.0.kept, All-IsKept g xs h.1)

where_step :
    (p : Job → Bool) (f : Job → Job) (r : Job)
    → (p r ≡ true → RowStep r (f r))
    → RowStep r (apply_where p f r)
where_step p f r h v = elim (Bool-cases (p r)) [
  | inl e ↦ rw e (h e v)
  | inr e ↦ rw e (v, Moves-refl r)
]

pub All-where :
    (p : Job → Bool) (f : Job → Job) (rows : List Job)
    → All (λ r. p r ≡ true → RowStep r (f r)) rows
    → All (λ r. RowStep r (apply_where p f r)) rows
All-where p f [] h = tt
All-where p f (r ∷ rows) h = (where_step p f r h.0, All-where p f rows h.1)

module _ (S : Sql) (L : IsLawful S) where
  pub Respects-update :
      (p : Job → Bool) (f : Job → Job) (t : S.Table Job)
      → (IsConsistent (S.rows t) → All (λ r. p r ≡ true → RowStep r (f r)) (S.rows t))
      → Respects S t (S.update p f t).0
  Respects-update p f t h c =
      let rows = S.rows t in
      let g : Job → Job = apply_where p f in
      let (valid, moves) = rows_step g rows (All-where p f rows (h c)) c.0 in
      rw (L.rows-update p f t)
        ((valid, Distinct-map g rows (All-IsKept g rows moves) c.1), Evolves-map Moves g rows moves)

  -- A compare-and-swap on the job that was read has to be justified at that job alone.
  pub Respects-swap {ℓ} :
      {A : Type ℓ} (p : Job → Bool) (f : Job → Job) (lost : Outcome A)
      (won : S.Table Job → Outcome A) (t : S.Table Job)
      → (IsConsistent (S.rows t) → All (λ r. p r ≡ true → RowStep r (f r)) (S.rows t))
      → Respects S t (compare_and_swap S p f lost won t).1
  Respects-swap p f lost won t h = elim (swap_cases S p f lost won t) [
    | inl e ↦ rw e (Respects-refl S t)
    | inr e ↦ rw e (Respects-update p f t h)
  ]

  pub Respects-with_job {ℓ} :
      {A : Type ℓ} (job_id : String) (missing : Outcome A) (body : Job → Outcome A × S.Table Job)
      (t : S.Table Job)
      → ((job : Job) → get S job_id t ≡ some job → Respects S t (body job).1)
      → Respects S t (with_job S job_id missing body t).1
  unfolding with_job
  Respects-with_job job_id missing body t h = elim (Option-cases (get S job_id t)) [
    | inl e ↦ rw (e, with_job) (Respects-refl S t)
    | inr (job, e) ↦ rw (e, with_job) (h job e)
  ]

  -- A guard that names the primary key of the job that was read is about that job alone.
  pub at_read :
      (p : Job → Bool) (f : Job → Job) (job_id : String) (job : Job) (t : S.Table Job)
      → get S job_id t ≡ some job
      → ((r : Job) → p r ≡ true → (r.id == job.id) ≡ true)
      → (p job ≡ true → RowStep job (f job))
      → IsConsistent (S.rows t)
      → All (λ r. p r ≡ true → RowStep r (f r)) (S.rows t)
  unfolding get
  at_read p f job_id job t e key h c = go (S.rows t) (get_only job_id job (S.rows t) c.1 e)
    where
      go : (rows : List Job) → All (IsOnly job) rows → All (λ r. p r ≡ true → RowStep r (f r)) rows
      go [] o = tt
      go (r ∷ rows) o = (
        (λ k.
            subst (λ j. RowStep j (f j)) (sym (o.0 (key r k)))
              (h (subst (λ j. p j ≡ true) (o.0 (key r k)) k))),
        go rows o.1,
      )

  pub read-IsValid :
      (job_id : String) (job : Job) (t : S.Table Job)
      → get S job_id t ≡ some job
      → IsConsistent (S.rows t)
      → IsValid job
  unfolding get
  read-IsValid job_id job t e c =
      All-first IsValid (λ j. str_eq j.job_id job_id) (S.rows t) job c.0 e

pub at_every :
    (p : Job → Bool) (f : Job → Job) (rows : List Job)
    → ((r : Job) → p r ≡ true → RowStep r (f r))
    → All (λ r. p r ≡ true → RowStep r (f r)) rows
at_every p f [] h = tt
at_every p f (r ∷ rows) h = (h r, at_every p f rows h)
