-- ===== src/Storage/Claiming.antt =====
-- `enqueue_job` and `claim_next_job` of storage/repository.py.
use mathlib.Core.Bool.{false≢true}
use mathlib.Core.Path.{subst}
use evoblue_video_mcp.Prelude.{
  ℕ, Bool, not, ◌||◌, or_of, All-imp, true, false, ◌⊎◌, inl, inr, Option, Option-cases, none, some,
  List, [], ◌∷◌, String, str_eq, eq_iff, first, select, All, All-select, All-both, select_passes,
  of_select, Bool-cases, if◌then◌else◌, ◌≡◌, ◌≢◌, refl, sym, ◌∙◌, ap, arith,
}
use evoblue_video_mcp.Outcome.{ok}
use evoblue_video_mcp.Sql.{Sql, IsLawful, IsOrder, IsSorted}
use evoblue_video_mcp.Jobs.States.{waiting_for_model, same, same_self, is_terminal}
use evoblue_video_mcp.Jobs.Transitions.{is_running}
use evoblue_video_mcp.Jobs.Facts.{running-Runs, terminal-Ends, state_kinds}
use evoblue_video_mcp.Storage.Models.{Job}
use evoblue_video_mcp.Storage.Session.{get, with_job}
use evoblue_video_mcp.Storage.Claims.{
  is_claimable, claimable_where, same_lease, claimed, claim_job, claim_first, claim_next_job,
  candidates, older,
}
use evoblue_video_mcp.Storage.Invariant.{clash, Distinct, IsConsistent}
use evoblue_video_mcp.Storage.Results.{claim_job_result, lease_key}
use evoblue_video_mcp.Storage.ClaimSteps.{claimed-RowStep}
use evoblue_video_mcp.Storage.Rules.{Respects, Respects-refl, Respects-update, at_read}

pub older-IsOrder : IsOrder older
unfolding older
older-IsOrder = record { total = λ a b h. ground arith; trans = λ a b c h k. ground arith }

-- The SQL condition of the candidates and the check of a claim agree on every job, except that the
-- condition leaves out a job that is parked in WAITING_FOR_MODEL.
pub claimable_where-eq :
    (now : ℕ) (job : Job)
    → claimable_where now job
      ≡ (if same job.status waiting_for_model then false else is_claimable now job)
unfolding claimable_where is_claimable
claimable_where-eq now job = elim (state_kinds job.status) [
  | inl over ↦
      let f = terminal-Ends job.status over in
      ground (arith, f.not_running, f.not_queued, f.not_waiting, f.not_retry)
  | inr (inl runs) ↦
      let f = running-Runs job.status runs in
      ground (arith, f.live, f.not_queued, f.not_waiting, f.not_retry)
  | inr (inr (inl e)) ↦ rw e (unfold same is_terminal is_running in ground arith)
  | inr (inr (inr (inl e))) ↦ rw e (unfold same is_terminal is_running in ground arith)
  | inr (inr (inr (inr e))) ↦ rw e (unfold same is_terminal is_running in ground arith)
]

claimable_of_where :
    (now : ℕ) (job : Job) → claimable_where now job ≡ true → is_claimable now job ≡ true
claimable_of_where now job h = elim (Bool-cases (same job.status waiting_for_model)) [
  | inl e ↦
      let k : claimable_where now job ≡ false = claimable_where-eq now job ∙ (rw e refl) in
      cc (h, k)
  | inr e ↦
      let k : claimable_where now job ≡ is_claimable now job =
        claimable_where-eq now job ∙ (rw e refl) in
      sym k ∙ h
]

-- In a consistent table every row is the one that its id reads.
pub rows_are_read :
    (rows : List Job)
    → Distinct rows
    → All (λ c. first (λ j. str_eq j.job_id c.job_id) rows ≡ some c) rows
rows_are_read [] d = tt
rows_are_read (x ∷ rows) d = (
  (rw ((eq_iff x.job_id x.job_id).1 refl)),
  All-both (λ c. clash x c ≡ false) (λ c. first (λ j. str_eq j.job_id c.job_id) rows ≡ some c)
      (λ c. first (λ j. str_eq j.job_id c.job_id) (x ∷ rows) ≡ some c) rows
      (λ c apart found. rw (other x c apart) found) d.0 (rows_are_read rows d.1),
)
  where
    other : (x c : Job) → clash x c ≡ false → str_eq x.job_id c.job_id ≡ false
    other x c h = ground arith

module _ (S : Sql) (L : IsLawful S) (owner : String) (lease_seconds now : ℕ) (t : S.Table Job) where
  -- a job that may be claimed next
  abbrev pub Ready : Job → Type 0
  Ready c = (get S c.job_id t ≡ some c) × (claimable_where now c ≡ true)

  -- the job that is claimed: it was ready, no ready job is older, and it is handed out with its lease
  pub record Claims (c : Job) : Type 0 where
    pub ready : Ready c
    pub oldest : All (λ j. (not (claimable_where now j) || older c j) ≡ true) (S.rows t)
    pub outcome :
        (claim_next_job S owner lease_seconds now t).0
        ≡ ok (some (claimed c owner lease_seconds now c))
    pub others :
        (k : String)
        → get S k (claim_next_job S owner lease_seconds now t).1
          ≡ (if str_eq k c.job_id then some (claimed c owner lease_seconds now c) else get S k t)
    pub table :
        (claim_next_job S owner lease_seconds now t).1
        ≡ (S.update (same_lease c) (claimed c owner lease_seconds now) t).0

  -- nothing is ready, and nothing is done
  pub record Idles : Type 0 where
    pub none_ready : All (λ j. claimable_where now j ≡ false) (S.rows t)
    pub unchanged : claim_next_job S owner lease_seconds now t ≡ (ok none, t)

  ready_rows : Distinct (S.rows t) → All Ready (select (claimable_where now) (S.rows t))
  unfolding get
  ready_rows d =
      let found = λ (c : Job). first (λ j. str_eq j.job_id c.job_id) (S.rows t) ≡ some c in
      All-both found (λ c. claimable_where now c ≡ true) Ready
        (select (claimable_where now) (S.rows t)) (λ c f r. (f, r))
        (All-select found (claimable_where now) (S.rows t) (rows_are_read (S.rows t) d))
        (select_passes (claimable_where now) (S.rows t))

  abbrev ready : List Job
  ready = select (claimable_where now) (S.rows t)

  none_ready_of : S.order_by older ready ≡ [] → All (λ j. claimable_where now j ≡ false) (S.rows t)
  none_ready_of e =
      let empty : All (λ j. ⊥) ready =
        (L.order_by-keeps (λ j. ⊥) older ready).1 (subst (All (λ j. ⊥)) (sym e) tt) in
      refuted (S.rows t) (of_select (λ j. ⊥) (claimable_where now) (S.rows t) empty)
    where
      refuted :
          (rows : List Job)
          → All (λ j. claimable_where now j ≡ true → ⊥) rows
          → All (λ j. claimable_where now j ≡ false) rows
      refuted [] h = tt
      refuted (j ∷ rows) h = (
        (elim (Bool-cases (claimable_where now j)) [ inl e ↦ absurd (h.0 e) | inr e ↦ e ]),
        refuted rows h.1,
      )

  module _ (c : Job) (rest : List Job) (e : S.order_by older ready ≡ c ∷ rest) where
    head_is_ready : IsConsistent (S.rows t) → Ready c
    head_is_ready h =
        (subst (All Ready) e ((L.order_by-keeps Ready older ready).0 (ready_rows h.1))).0

    head_is_oldest : All (λ j. claimable_where now j ≡ true → older c j ≡ true) (S.rows t)
    head_is_oldest =
        of_select (λ j. older c j ≡ true) (claimable_where now) (S.rows t)
          ((L.order_by-keeps (λ j. older c j ≡ true) older ready).1 (
            subst (All (λ j. older c j ≡ true)) (sym e) (
              reflexive c,
              (subst (IsSorted older) e (L.order_by-sorts older ready older-IsOrder)).0,
            )))
      where
        reflexive : (j : Job) → older j j ≡ true
        reflexive j = elim (Bool-cases (older j j)) [
          | inl k ↦ k
          | inr k ↦ older-IsOrder.total j j k
        ]

    first_is_claimed : IsConsistent (S.rows t) → Claims c
    unfolding claim_next_job candidates claim_first
    first_is_claimed h =
        let r = head_is_ready h in
        let able = claimable_of_where now c r.1 in
        let claim = claim_job_result S L c.job_id c t h r.0 owner lease_seconds now in
        let won : (claim_job S c.job_id owner lease_seconds now t).0
            ≡ ok (some (claimed c owner lease_seconds now c)) =
          claim.0 ∙ (rw able refl) in
        record {
          ready = r;
          oldest =
              All-imp (λ j. claimable_where now j ≡ true → older c j ≡ true)
                (λ j. (not (claimable_where now j) || older c j) ≡ true) (S.rows t)
                (λ j k. or_of (claimable_where now j) (older c j) k) head_is_oldest;
          outcome = rw (e, candidates) (rw (won, claim_first) refl);
          others = λ k. rw (e, candidates) (rw (won, claim_first) (claim.1 k ∙ (rw able refl)));
          table = rw (e, candidates) (rw (won, claim_first) (claim.2 ∙ (rw able refl)));
        }

  pub claim_next_job_result : IsConsistent (S.rows t) → ((c : Job) × Claims c) ⊎ Idles
  unfolding claim_next_job claim_first candidates
  claim_next_job_result h = go (S.order_by older ready) refl
    where
      go : (ordered : List Job) → S.order_by older ready ≡ ordered → ((c : Job) × Claims c) ⊎ Idles
      go [] e = inr (record { none_ready = none_ready_of e; unchanged = rw (e, candidates) refl })
      go (c ∷ rest) e = inl (c, first_is_claimed c rest e h)

-- the job that was read waits for a model
abbrev pub is_parked : Option Job → Bool
is_parked none = false
is_parked (some job) = same job.status waiting_for_model

where_not_parked : (now : ℕ) (c : Job) → claimable_where now c ≡ true → c.status ≢ waiting_for_model
where_not_parked now c h e =
    let k : claimable_where now c ≡ false =
      claimable_where-eq now c
      ∙ (rw (ap (λ s. same s waiting_for_model) e, same_self waiting_for_model) refl) in
    false≢true (sym k ∙ h)

module _ (S : Sql) (L : IsLawful S) (owner : String) (lease_seconds now : ℕ) (t : S.Table Job) where
  -- A claim of a job that is not parked.
  pub claim_job-Respects :
      (job_id : String)
      → is_parked (get S job_id t) ≡ false
      → Respects S t (claim_job S job_id owner lease_seconds now t).1
  unfolding claim_job with_job
  claim_job-Respects job_id free h = elim (Option-cases (get S job_id t)) [
    | inl e ↦ rw (e, with_job) (Respects-refl S t h)
    | inr (c, e) ↦
        let live : same c.status waiting_for_model ≡ false = rw e at free in
        rw (claim_job_result S L job_id c t h e owner lease_seconds now).2
          (elim (Bool-cases (is_claimable now c)) [
            | inr idle ↦ rw idle (Respects-refl S t h)
            | inl able ↦ rw able (
                Respects-update S L (same_lease c) (claimed c owner lease_seconds now) t
                  (at_read S L (same_lease c) (claimed c owner lease_seconds now) job_id c t e
                    (lease_key c)
                    (λ _. claimed-RowStep owner lease_seconds now c (not_parked c live) able))
                  h)
          ])
  ]
    where
      not_parked :
          (c : Job) → same c.status waiting_for_model ≡ false → c.status ≢ waiting_for_model
      not_parked c live w =
          false≢true (sym live ∙ ap (λ s. same s waiting_for_model) w ∙ same_self waiting_for_model)

  pub claim_next_job-Respects : Respects S t (claim_next_job S owner lease_seconds now t).1
  claim_next_job-Respects h = elim (claim_next_job_result S L owner lease_seconds now t h) [
    | inr idle ↦ rw idle.unchanged (Respects-refl S t h)
    | inl (c, claims) ↦ rw claims.table (
        Respects-update S L (same_lease c) (claimed c owner lease_seconds now) t
          (at_read S L (same_lease c) (claimed c owner lease_seconds now) c.job_id c t
            claims.ready.0 (lease_key c)
            (λ _.
              claimed-RowStep owner lease_seconds now c (where_not_parked now c claims.ready.1)
                (claimable_of_where now c claims.ready.1)))
          h)
  ]
