-- ===== src/Storage/Exact.antt =====
-- What a compare-and-swap on the job that was read does exactly: it writes that row, and no other, if
-- the guard admits it, and it leaves the table otherwise.
use mathlib.Core.Path.{subst}
use evoblue_video_mcp.Prelude.{
  ◌==◌, Bool, true, false, inl, inr, Option, none, some, List, [], ◌∷◌, String, str_eq, map, first,
  select, All, All-first, some_eq, first-passes, eq_iff, Bool-cases, Option-cases, ◌&&◌,
  if◌then◌else◌, ◌≡◌, refl, sym, ◌∙◌, ap, arith,
}
use evoblue_video_mcp.Outcome.{Error, Outcome, ok, err}
use evoblue_video_mcp.Sql.{Sql, IsLawful, apply_where}
use evoblue_video_mcp.Storage.Models.{Job}
use evoblue_video_mcp.Storage.Session.{get, get_required, settle, compare_and_swap}
use evoblue_video_mcp.Storage.Invariant.{Distinct, IsConsistent, clash}
use evoblue_video_mcp.Storage.Rules.{get_only}

abbrev pub map_option {ℓ} : {A : Type ℓ} → (A → A) → Option A → Option A
map_option f none = none
map_option f (some a) = some (f a)

module _ {T R : Type 0} {A : Type 0} where
  pub settle_lost :
      (u : T × List R) (lost : Outcome A) (won : T → Outcome A) (t : T)
      → u.1 ≡ []
      → settle u lost won t ≡ (lost, t)
  unfolding settle
  settle_lost (t', []) lost won t e = refl
  settle_lost (t', r ∷ more) lost won t e = cc

  pub settle_won :
      (u : T × List R) (lost : Outcome A) (won : T → Outcome A) (t : T) (r : R)
      → u.1 ≡ r ∷ []
      → settle u lost won t ≡ (won u.0, u.0)
  unfolding settle
  settle_won (t', []) lost won t r e = cc
  settle_won (t', s ∷ []) lost won t r e = refl
  settle_won (t', s ∷ s' ∷ more) lost won t r e = cc

pub first-map :
    (q : Job → Bool) (g : Job → Job) (xs : List Job)
    → ((x : Job) → q (g x) ≡ q x)
    → first q (map g xs) ≡ map_option g (first q xs)
first-map q g [] h = refl
first-map q g (x ∷ xs) h = elim (Bool-cases (q x)) [
  | inl e ↦ rw (h x, e)
  | inr e ↦ rw (h x, e) (first-map q g xs h)
]

-- no row that differs in its key passes a guard that names the key
none_pass :
    (p : Job → Bool) (job : Job) (rows : List Job)
    → ((r : Job) → p r ≡ true → (r.id == job.id) ≡ true)
    → All (λ y. clash job y ≡ false) rows
    → select p rows ≡ []
none_pass p job [] key d = refl
none_pass p job (r ∷ rows) key d = elim (Bool-cases (p r)) [
  | inr e ↦ rw e (none_pass p job rows key d.1)
  | inl e ↦ cc (swap_key r job (key r e), d.0)
]
  where
    swap_key : (r job : Job) → (r.id == job.id) ≡ true → clash job r ≡ true
    swap_key r job e = ground arith

pub select_read :
    (p : Job → Bool) (job_id : String) (job : Job) (rows : List Job)
    → ((r : Job) → p r ≡ true → (r.id == job.id) ≡ true)
    → Distinct rows
    → first (λ j. str_eq j.job_id job_id) rows ≡ some job
    → select p rows ≡ (if p job then job ∷ [] else [])
select_read p job_id job [] key d e = cc
select_read p job_id job (r ∷ rows) key d e = elim (Bool-cases (str_eq r.job_id job_id)) [
  | inl t ↦
      let found : some r ≡ some job = rw t at e in
      let here : r ≡ job = some_eq r job found in
      let rest : select p rows ≡ [] =
        none_pass p job rows key (subst (λ j. All (λ y. clash j y ≡ false) rows) here d.0) in
      rw rest (subst (λ j. (if p r then r ∷ [] else []) ≡ (if p j then j ∷ [] else [])) here refl)
  | inr t ↦
      let found : first (λ j. str_eq j.job_id job_id) rows ≡ some job = rw t at e in
      let apart : clash r job ≡ false =
        All-first (λ y. clash r y ≡ false) (λ j. str_eq j.job_id job_id) rows job d.0 found in
      elim (Bool-cases (p r)) [
        | inl pass ↦ cc (same_key r job (key r pass), apart)
        | inr fail ↦ rw fail (select_read p job_id job rows key d.1 found)
      ]
]
  where
    same_key : (r job : Job) → (r.id == job.id) ≡ true → clash r job ≡ true
    same_key r job e = ground arith

module _ (S : Sql) (L : IsLawful S) where
  is_only :
      (job_id : String) (job : Job) (t : S.Table Job) (x : Job) (k : String)
      → get S job_id t ≡ some job
      → IsConsistent (S.rows t)
      → get S k t ≡ some x
      → (x.id == job.id) ≡ true
      → x ≡ job
  unfolding get
  is_only job_id job t x k e c found same_key =
      All-first (λ r. (r.id == job.id) ≡ true → r ≡ job) (λ j. str_eq j.job_id k) (S.rows t) x
        (get_only job_id job (S.rows t) c.1 e) found same_key

  pub get-update :
      (job_id : String) (p : Job → Bool) (f : Job → Job) (t : S.Table Job)
      → ((r : Job) → (f r).job_id ≡ r.job_id)
      → get S job_id (S.update p f t).0 ≡ map_option (apply_where p f) (get S job_id t)
  unfolding get
  get-update job_id p f t keeps =
      rw (L.rows-update p f t)
        (first-map (λ j. str_eq j.job_id job_id) (apply_where p f) (S.rows t) (λ x. kept x))
    where
      kept : (x : Job) → str_eq (apply_where p f x).job_id job_id ≡ str_eq x.job_id job_id
      kept x = elim (Bool-cases (p x)) [ inl e ↦ rw (e, keeps x) refl | inr e ↦ rw e refl ]

  -- The outcome and the table of a compare-and-swap whose guard names the key of the job read.
  pub swap-eq :
      {A : Type 0} (p : Job → Bool) (f : Job → Job) (lost : Outcome A)
      (won : S.Table Job → Outcome A) (job_id : String) (job : Job) (t : S.Table Job)
      → Distinct (S.rows t)
      → get S job_id t ≡ some job
      → ((r : Job) → p r ≡ true → (r.id == job.id) ≡ true)
      → compare_and_swap S p f lost won t
        ≡ (if p job then (won (S.update p f t).0, (S.update p f t).0) else (lost, t))
  unfolding compare_and_swap get
  swap-eq p f lost won job_id job t d e key =
      let hit =
        L.returning-update p f t ∙ ap (map f) (select_read p job_id job (S.rows t) key d e) in
      elim (Bool-cases (p job)) [
        | inl pass ↦ rw pass (settle_won (S.update p f t) lost won t (f job) (rw pass at hit))
        | inr fail ↦ rw fail (settle_lost (S.update p f t) lost won t (rw fail at hit))
      ]

  -- the row of the job after the write
  pub get-swapped :
      (p : Job → Bool) (f : Job → Job) (job_id : String) (job : Job) (t : S.Table Job)
      → get S job_id t ≡ some job
      → p job ≡ true
      → ((r : Job) → (f r).job_id ≡ r.job_id)
      → get S job_id (S.update p f t).0 ≡ some (f job)
  get-swapped p f job_id job t e pass keeps = get-update job_id p f t keeps ∙ (rw e (rw pass refl))

  pub read_id :
      (job_id : String) (job : Job) (t : S.Table Job)
      → get S job_id t ≡ some job
      → job.job_id ≡ job_id
  unfolding get
  read_id job_id job t e =
      (eq_iff job.job_id job_id).0 (first-passes (λ j. str_eq j.job_id job_id) (S.rows t) job e)

  -- every other job reads as before
  pub get-swapped_ne :
      (p : Job → Bool) (f : Job → Job) (job_id k : String) (job : Job) (t : S.Table Job)
      → IsConsistent (S.rows t)
      → get S job_id t ≡ some job
      → ((r : Job) → p r ≡ true → (r.id == job.id) ≡ true)
      → ((r : Job) → (f r).job_id ≡ r.job_id)
      → str_eq k job_id ≡ false
      → get S k (S.update p f t).0 ≡ get S k t
  get-swapped_ne p f job_id k job t c e key keeps other =
      get-update k p f t keeps ∙ elim (Option-cases (get S k t)) [
        | inl absent ↦ rw absent
        | inr (x, found) ↦ rw found (ap some (untouched x found))
      ]
    where
      untouched : (x : Job) → get S k t ≡ some x → apply_where p f x ≡ x
      untouched x found = elim (Bool-cases (p x)) [
        | inr fail ↦ rw fail
        | inl pass ↦
            let only : x ≡ job = is_only job_id job t x k e c found (key x pass) in
            let same_id : k ≡ job_id =
              sym (read_id k x t found)
              ∙ ap (λ (j : Job). j.job_id) only
              ∙ read_id job_id job t e in
            cc ((eq_iff k job_id).1 same_id, other)
      ]

  -- every later read, after a write that was admitted
  pub reads-swapped :
      (p : Job → Bool) (f : Job → Job) (job_id k : String) (job : Job) (t : S.Table Job)
      → IsConsistent (S.rows t)
      → get S job_id t ≡ some job
      → ((r : Job) → p r ≡ true → (r.id == job.id) ≡ true)
      → ((r : Job) → (f r).job_id ≡ r.job_id)
      → p job ≡ true
      → get S k (S.update p f t).0 ≡ (if str_eq k job_id then some (f job) else get S k t)
  reads-swapped p f job_id k job t c found key keeps pass = elim (Bool-cases (str_eq k job_id)) [
    | inl here ↦
        rw here (rw ((eq_iff k job_id).0 here) (get-swapped p f job_id job t found pass keeps))
    | inr other ↦ rw other (get-swapped_ne p f job_id k job t c found key keeps other)
  ]

  pub get_as :
      (n k : String) (t : S.Table Job) (j : Job) → n ≡ k → get S k t ≡ some j → get S n t ≡ some j
  get_as n k t j e h = subst (λ m. get S m t ≡ some j) (sym e) h

  pub required :
      (n k : String) (t : S.Table Job) (j : Job)
      → n ≡ k
      → get S k t ≡ some j
      → get_required S n t ≡ ok j
  unfolding get_required
  required n k t j e h = subst (λ m. get_required S m t ≡ ok j) (sym e) (rw (h, get_required))

  -- A compare-and-swap on the job read, and the read of it afterwards: the outcome, and what every
  -- later read gives.
  pub swap_result :
      (p : Job → Bool) (f : Job → Job) (e : Error) (job_id : String) (job : Job) (t : S.Table Job)
      → IsConsistent (S.rows t)
      → get S job_id t ≡ some job
      → ((r : Job) → p r ≡ true → (r.id == job.id) ≡ true)
      → ((r : Job) → (f r).job_id ≡ r.job_id)
      → let r = compare_and_swap S p f (err e) (get_required S job.job_id) t in
        (r.0 ≡ (if p job then ok (f job) else err e))
        × ((k : String)
            → get S k r.1 ≡ (if p job && str_eq k job_id then some (f job) else get S k t))
  unfolding get_required
  swap_result p f e job_id job t c found key keeps =
      rw (swap-eq p f (err e) (get_required S job.job_id) job_id job t c.1 found key)
        (elim (Bool-cases (p job)) [
          | inr fail ↦ rw fail (refl, (λ k. refl))
          | inl pass ↦
              let now_some = get-swapped p f job_id job t found pass keeps in
              rw pass (
                required job.job_id job_id (S.update p f t).0 (f job) (read_id job_id job t found)
                    now_some,
                (λ k. reads-swapped p f job_id k job t c found key keeps pass),
              )
        ])
