-- ===== src/Application/Reuse.antt =====
-- What a submission reuses, and that it never runs the same request twice at once.
use mathlib.Core.Path.{subst}
use mathlib.Core.Bool.{false≢true}
use evoblue_video_mcp.Prelude.{
  ℕ, ◌+◌, ◌==◌, Bool, true, false, ◌||◌, ◌&&◌, not, leb, ◌⊎◌, inl, inr, none, some, List, [], ◌∷◌,
  ◌++◌, String, str_eq, any, select, All, Mem, All-Mem, Mem-last, All-imp, All-append, All-select,
  to_select, of_select, or_of, select_passes, select-nil, Bool-cases, Option-cases, eq_iff,
  &&-eq_true, ◌≡◌, refl, sym, ◌∙◌, ap, some_eq, arith,
}
use evoblue_video_mcp.Outcome.{Outcome, ok, err, integrity_error}
use evoblue_video_mcp.Sql.{Sql, IsLawful, IsOrder, IsSorted}
use evoblue_video_mcp.Sql.Keys.{AtMostOne, AtMostOne-insert}
use evoblue_video_mcp.Jobs.States.{completed, same, same→eq, is_terminal}
use evoblue_video_mcp.Storage.Models.{Job}
use evoblue_video_mcp.Storage.Session.{get_required}
use evoblue_video_mcp.Storage.Claims.{enqueue_job}
use evoblue_video_mcp.Application.Submit.{
  is_unfinished, is_recent, created_later, updated_later, head, find_reusable, reply_new,
  submit_video,
}

-- the job has the fingerprint and is not finished
abbrev pub unfinished_for : String → Job → Bool
unfinished_for fingerprint j =
    str_eq j.request_fingerprint fingerprint && not (is_terminal j.status)

-- the job has the fingerprint and was completed within the window
abbrev pub completed_for : String → ℕ → ℕ → Job → Bool
completed_for fingerprint now window j =
    str_eq j.request_fingerprint fingerprint
    && (same j.status completed && leb now (j.updated_at + window))

created_later-IsOrder : IsOrder created_later
unfolding created_later
created_later-IsOrder = record { total = λ a b h. ground arith; trans = λ a b c h k. ground arith }

updated_later-IsOrder : IsOrder updated_later
unfolding updated_later
updated_later-IsOrder = record { total = λ a b h. ground arith; trans = λ a b c h k. ground arith }

module _ (S : Sql) (L : IsLawful S) (le : Job → Job → Bool) (p : Job → Bool) (rows : List Job) where
  abbrev sorted : List Job
  sorted = S.order_by le (select p rows)

  -- what holds of the selected rows holds of the head of the sorted selection
  head-has : (P : Job → Type 0) (j : Job) → All P (select p rows) → head sorted ≡ some j → P j
  head-has P j h e = go sorted ((L.order_by-keeps P le (select p rows)).0 h) e
    where
      go : (js : List Job) → All P js → head js ≡ some j → P j
      go [] k o = cc
      go (x ∷ xs) k o = subst P (some_eq x j o) k.0

  head_passes : (j : Job) → head sorted ≡ some j → p j ≡ true
  head_passes j = head-has (λ x. p x ≡ true) j (select_passes p rows)

  head-Mem : (j : Job) → head sorted ≡ some j → Mem j rows
  head-Mem j = head-has (λ x. Mem x rows) j (All-select (λ x. Mem x rows) p rows (All-Mem rows))

  -- the head comes before every row that passes
  head_leads :
      IsOrder le → (j : Job) → head sorted ≡ some j → All (λ x. (not (p x) || le j x) ≡ true) rows
  head_leads order j e =
      All-imp (λ x. p x ≡ true → le j x ≡ true) (λ x. (not (p x) || le j x) ≡ true) rows
        (λ x k. or_of (p x) (le j x) k)
        (of_select (λ x. le j x ≡ true) p rows
          ((L.order_by-keeps (λ x. le j x ≡ true) le (select p rows)).1
            (go sorted (L.order_by-sorts le (select p rows) order) e)))
    where
      reflexive : (x : Job) → le x x ≡ true
      reflexive x = elim (Bool-cases (le x x)) [ inl k ↦ k | inr k ↦ order.total x x k ]

      go : (js : List Job) → IsSorted le js → head js ≡ some j → All (λ x. le j x ≡ true) js
      go [] k o = cc
      go (x ∷ xs) k o =
          let same_job = some_eq x j o in
          subst (λ y. All (λ z. le y z ≡ true) (x ∷ xs)) same_job (reflexive x, k.0)

  -- there is a head unless no row passes
  head_absent : head sorted ≡ none → All (λ x. p x ≡ false) rows
  head_absent e = go sorted refl e
    where
      empty_of : (js : List Job) → All (λ x. ⊥) js → js ≡ []
      empty_of [] h = refl
      empty_of (k ∷ ks) h = absurd h.0

      go : (js : List Job) → sorted ≡ js → head js ≡ none → All (λ x. p x ≡ false) rows
      go (k ∷ ks) o e = cc
      go [] o e = select-nil p rows (
          empty_of (select p rows)
            ((L.order_by-keeps (λ x. ⊥) le (select p rows)).1 (subst (All (λ x. ⊥)) (sym o) tt)))

alone :
    (f : String) (j : Job) (rows : List Job)
    → is_unfinished f j ≡ true
    → All (λ x. is_unfinished j.request_fingerprint x ≡ false) rows
    → All (λ x. is_unfinished f x ≡ false) rows
unfolding is_unfinished
alone f j rows live k =
    let same = (&&-eq_true (str_eq j.request_fingerprint f) (not (is_terminal j.status)) live).0 in
    subst (λ g. All (λ x. is_unfinished g x ≡ false) rows) ((eq_iff j.request_fingerprint f).0 same)
      k

is_live :
    (job again : Job)
    → is_terminal job.status ≡ false
    → again.request_fingerprint ≡ job.request_fingerprint
    → is_unfinished again.request_fingerprint job ≡ true
unfolding is_unfinished
is_live job again live same =
    rw ((eq_iff job.request_fingerprint again.request_fingerprint).1 (sym same), live) refl

last_of :
    (p : Job → Bool) (rows : List Job) (j : Job)
    → All (λ x. p x ≡ false) (rows ++ j ∷ [])
    → p j ≡ false
last_of p [] j h = h.0
last_of p (x ∷ rows) j h = last_of p rows j h.1

module _ (S : Sql) (L : IsLawful S) where
  -- which of the two queries of `_find_reusable` answers
  find_reusable_source :
      (fingerprint : String) (now window : ℕ) (t : S.Table Job)
      → let live =
          head (S.order_by created_later (select (is_unfinished fingerprint) (S.rows t))) in
        let done =
          head (S.order_by updated_later (select (is_recent fingerprint now window) (S.rows t))) in
        ((j : Job) × (find_reusable S fingerprint now window t ≡ some j)
          × ((live ≡ some j) ⊎ ((live ≡ none) × (done ≡ some j))))
        ⊎ ((find_reusable S fingerprint now window t ≡ none) × (live ≡ none) × (done ≡ none))
  unfolding find_reusable
  find_reusable_source fingerprint now window t =
      elim (Option-cases
        (head (S.order_by created_later (select (is_unfinished fingerprint) (S.rows t))))) [
          | inr (j, e) ↦ inl (j, rw (e, find_reusable) refl, inl e)
          | inl e ↦
              elim (Option-cases (
                head (
                  S.order_by updated_later
                    (select (is_recent fingerprint now window) (S.rows t))))) [
                      | inr (j, o) ↦ inl (j, rw (e, o, find_reusable) refl, inr (e, o))
                      | inl o ↦ inr (rw (e, o, find_reusable) refl, e, o)
                    ]
        ]

  module _ (fingerprint : String) (now window : ℕ) (t : S.Table Job) where
    -- an unfinished job of the table with the fingerprint, none of which was created later
    pub record Continues (j : Job) : Type 0 where
      pub there : Mem j (S.rows t)
      pub same_request : j.request_fingerprint ≡ fingerprint
      pub unfinished : is_terminal j.status ≡ false
      pub newest :
          All
            (λ x. (not (unfinished_for fingerprint x) || leb x.created_at j.created_at) ≡ true)
            (S.rows t)

    -- a job of the table with the fingerprint that was completed within the window, none of which was
    -- updated later, while no job with the fingerprint is unfinished
    pub record Repeats (j : Job) : Type 0 where
      pub there : Mem j (S.rows t)
      pub same_request : j.request_fingerprint ≡ fingerprint
      pub succeeded : j.status ≡ completed
      pub recent : leb now (j.updated_at + window) ≡ true
      pub none_unfinished : All (λ x. unfinished_for fingerprint x ≡ false) (S.rows t)
      pub newest :
          All
            (λ x.
              (not (completed_for fingerprint now window x) || leb x.updated_at j.updated_at)
              ≡ true)
            (S.rows t)

    continues :
        (j : Job)
        → head (S.order_by created_later (select (is_unfinished fingerprint) (S.rows t))) ≡ some j
        → Continues j
    unfolding is_unfinished created_later
    continues j e =
        let passes = head_passes S L created_later (is_unfinished fingerprint) (S.rows t) j e in
        let (named, live) =
          &&-eq_true (str_eq j.request_fingerprint fingerprint) (not (is_terminal j.status))
            passes in
        record {
          there = head-Mem S L created_later (is_unfinished fingerprint) (S.rows t) j e;
          same_request = (eq_iff j.request_fingerprint fingerprint).0 named;
          unfinished = ground arith;
          newest =
              head_leads S L created_later (is_unfinished fingerprint) (S.rows t)
                created_later-IsOrder j e;
        }

    repeats :
        (j : Job)
        → head (S.order_by created_later (select (is_unfinished fingerprint) (S.rows t))) ≡ none
        → head (S.order_by updated_later (select (is_recent fingerprint now window) (S.rows t)))
          ≡ some j
        → Repeats j
    unfolding is_unfinished is_recent updated_later
    repeats j absent e =
        let p = is_recent fingerprint now window in
        let passes = head_passes S L updated_later p (S.rows t) j e in
        let (named, rest) = &&-eq_true (str_eq j.request_fingerprint fingerprint) _ passes in
        let (over, recent) =
          &&-eq_true (same j.status completed) (leb now (j.updated_at + window)) rest in
        record {
          there = head-Mem S L updated_later p (S.rows t) j e;
          same_request = (eq_iff j.request_fingerprint fingerprint).0 named;
          succeeded = same→eq j.status completed over;
          recent = recent;
          none_unfinished =
              head_absent S L created_later (is_unfinished fingerprint) (S.rows t) absent;
          newest = head_leads S L updated_later p (S.rows t) updated_later-IsOrder j e;
        }

    -- What _find_reusable gives is a job of the table with the fingerprint: one that is not
    -- finished, none of which was created later; or, if none is unfinished, one that is COMPLETED
    -- and was updated within the window, none of which was updated later. It gives nothing only if
    -- no job with the fingerprint is unfinished and none was completed within the window.
    pub find_reusable_cases :
        ((j : Job) × (find_reusable S fingerprint now window t ≡ some j)
          × (Continues j ⊎ Repeats j))
        ⊎ ((find_reusable S fingerprint now window t ≡ none)
            × All (λ j. unfinished_for fingerprint j ≡ false) (S.rows t)
            × All (λ j. completed_for fingerprint now window j ≡ false) (S.rows t))
    unfolding is_unfinished is_recent
    find_reusable_cases = elim (find_reusable_source fingerprint now window t) [
      | inl (j, e, inl live) ↦ inl (j, e, inl (continues j live))
      | inl (j, e, inr (absent, done)) ↦ inl (j, e, inr (repeats j absent done))
      | inr (e, no_live, no_done) ↦ inr (
        e,
        head_absent S L created_later (is_unfinished fingerprint) (S.rows t) no_live,
        head_absent S L updated_later (is_recent fingerprint now window) (S.rows t) no_done,
      )
    ]

  rows_reply : (o : Outcome Job) (t : S.Table Job) → (reply_new S (o, t)).1 ≡ t
  unfolding reply_new
  rows_reply (ok j) t = refl
  rows_reply (err e) t = refl

  rows_new :
      (job : Job) (t : S.Table Job)
      → S.rows (reply_new S (get_required S job.job_id (S.insert job t), S.insert job t)).1
        ≡ S.rows t ++ job ∷ []
  rows_new job t =
      ap S.rows (rows_reply (get_required S job.job_id (S.insert job t)) (S.insert job t))
      ∙ L.rows-insert job t

  -- A submission keeps at most one unfinished job for each fingerprint.
  pub submit_keeps_single :
      (job : Job) (now window : ℕ) (t : S.Table Job) (f : String)
      → AtMostOne (is_unfinished f) (S.rows t)
      → AtMostOne (is_unfinished f) (S.rows (submit_video S job now window t).1)
  unfolding submit_video enqueue_job
  submit_keeps_single job now window t f h =
      elim (find_reusable_source job.request_fingerprint now window t) [
        | inl (j, e, why) ↦ rw (e, submit_video) h
        | inr (e, no_live, no_done) ↦
            let none_live =
              head_absent S L created_later (is_unfinished job.request_fingerprint) (S.rows t)
                no_live in
            rw (e, submit_video)
              (elim (Bool-cases
                (any (λ row. row.id == job.id || str_eq row.job_id job.job_id) (S.rows t))) [
                  | inl taken ↦ rw taken (unfold reply_new in h)
                  | inr free ↦ rw free (
                      subst (AtMostOne (is_unfinished f)) (sym (rows_new job t)) (
                        AtMostOne-insert (is_unfinished f) (S.rows t) job
                          (λ live. alone f job (S.rows t) live none_live) h))
                ])
      ]

  new_is_stored :
      (job : Job) (now window : ℕ) (t : S.Table Job) (j : Job)
      → (submit_video S job now window t).0 ≡ ok (j, false)
      → (S.rows (submit_video S job now window t).1 ≡ S.rows t ++ job ∷ [])
        × All (λ x. is_unfinished job.request_fingerprint x ≡ false) (S.rows t)
  unfolding submit_video enqueue_job reply_new
  new_is_stored job now window t j new =
      elim (find_reusable_source job.request_fingerprint now window t) [
        | inl (k, e, why) ↦
            let reply : Path (Outcome (Job × Bool)) (ok (k, true)) (ok (j, false)) =
              rw (e, submit_video) at new in
            absurd (false≢true (sym (flag reply)))
        | inr (e, no_live, no_done) ↦
            rw (e, submit_video)
              (elim (Bool-cases
                (any (λ row. row.id == job.id || str_eq row.job_id job.job_id) (S.rows t))) [
                  | inl taken ↦
                      let reply : Path (Outcome (Job × Bool)) (err integrity_error)
                          (ok (j, false)) =
                        rw (e, submit_video, taken, reply_new) at new in
                      cc reply
                  | inr free ↦ rw free (
                    rows_new job t,
                    head_absent S L created_later (is_unfinished job.request_fingerprint) (S.rows t)
                        no_live,
                  )
                ])
      ]
    where
      flag : {a b : Job × Bool} → ok a ≡ ok b → a.1 ≡ b.1
      flag e = cc

  -- After a submission that added an unfinished job, that job is in the table, and the same
  -- request submitted again, at any time and with any window, is answered by that very job as a
  -- reused one and changes nothing: submitting is idempotent.
  pub resubmitted :
      (job again : Job) (now window : ℕ) (later window' : ℕ) (t : S.Table Job) (j : Job)
      → is_terminal job.status ≡ false
      → again.request_fingerprint ≡ job.request_fingerprint
      → (submit_video S job now window t).0 ≡ ok (j, false)
      → let t' = (submit_video S job now window t).1 in
        Mem job (S.rows t') × (submit_video S again later window' t' ≡ (ok (job, true), t'))
  unfolding submit_video enqueue_job
  resubmitted job again now window later window' t j live equal new =
      let p = is_unfinished again.request_fingerprint in
      let t' = (submit_video S job now window t).1 in
      let (stored, others) = new_is_stored job now window t j new in
      let others' =
        subst (λ f. All (λ x. is_unfinished f x ≡ false) (S.rows t)) (sym equal) others in
      let only : All (λ x. x ≡ job) (select p (S.rows t')) =
        to_select (λ x. x ≡ job) p (S.rows t')
          (subst (All (λ x. p x ≡ true → x ≡ job)) (sym stored) (
            All-append (λ x. p x ≡ true → x ≡ job) (S.rows t) (job ∷ [])
              (All-imp (λ x. p x ≡ false) (λ x. p x ≡ true → x ≡ job) (S.rows t)
                (λ x k h. absurd (false≢true (sym k ∙ h))) others')
              ((λ h. refl), tt))) in
      (
        subst (Mem job) (sym stored) (Mem-last (S.rows t) job),
        elim (find_reusable_source again.request_fingerprint later window' t') [
          | inl (k, e, inl found) ↦
              rw (e, submit_video)
                (ap (λ x. (ok (x, true), t'))
                  (head-has S L created_later p (S.rows t') (λ x. x ≡ job) k only found))
          | inl (k, e, inr (absent, done)) ↦ absurd (missed absent)
          | inr (e, absent, done) ↦ absurd (missed absent)
        ],
      )
    where
      missed :
          head (
              S.order_by created_later (
                select
                  (is_unfinished again.request_fingerprint)
                  (S.rows (submit_video S job now window t).1)))
            ≡ none
          → ⊥
      missed absent =
          let t' = (submit_video S job now window t).1 in
          let p = is_unfinished again.request_fingerprint in
          let refused : All (λ x. p x ≡ false) (S.rows t ++ job ∷ []) =
            subst (All (λ x. p x ≡ false)) (new_is_stored job now window t j new).0
              (head_absent S L created_later p (S.rows t') absent) in
          cc (is_live job again live equal, last_of p (S.rows t) job refused)
