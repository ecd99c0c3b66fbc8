-- ===== src/Runtime/Follows.antt =====
-- What any step of a worker keeps: the table stays consistent, and the rows change as operations may
-- change them. A write after a display update counts as one step, since it is one transaction.
use mathlib.Core.Path.{subst}
use mathlib.Core.Bool.{false≢true}
use evoblue_video_mcp.Prelude.{
  Bool, true, false, inl, inr, Option, none, some, List, [], ◌∷◌, String, str_eq, map, All,
  Bool-cases, eq_iff, ◌≡◌, refl, sym, ◌∙◌, ap, arith,
}
use evoblue_video_mcp.Sql.{Sql, IsLawful, apply_where}
use evoblue_video_mcp.Sql.Keys.{AtMostOne, first-IsOnly}
use evoblue_video_mcp.Jobs.States.{is_terminal}
use evoblue_video_mcp.Storage.Models.{Job}
use evoblue_video_mcp.Storage.Session.{get}
use evoblue_video_mcp.Storage.Invariant.{
  IsValid, IsKept, IsKept-refl, Evolves, Evolves-refl, Evolves-trans, Evolves-Moves, clash,
  Distinct, IsConsistent,
}
use evoblue_video_mcp.Storage.Rules.{Respects}
use evoblue_video_mcp.Storage.Exact.{get-update, map_option}
use evoblue_video_mcp.Runtime.Stage.{Display, displayed, apply_display_update}

module _ (S : Sql) where
  -- from a consistent table to a consistent table, where no row is lost and finished rows stay
  abbrev pub Follows : S.Table Job → S.Table Job → Type 0
  Follows t u =
      IsConsistent (S.rows t) → IsConsistent (S.rows u) × Evolves IsKept (S.rows t) (S.rows u)

  pub Follows-refl : (t : S.Table Job) → Follows t t
  Follows-refl t c = (c, Evolves-refl IsKept IsKept-refl (S.rows t))

  pub Follows-trans : (t u v : S.Table Job) → Follows t u → Follows u v → Follows t v
  Follows-trans t u v h k c =
      let (c', e) = h c in
      let (c'', e') = k c' in (c'', Evolves-trans (S.rows t) (S.rows u) (S.rows v) e e')

  pub Follows-Respects : (t u : S.Table Job) → Respects S t u → Follows t u
  Follows-Respects t u h c = let (c', e) = h c in (c', Evolves-Moves (S.rows t) (S.rows u) e)

displayed-IsValid : (d : Display) (r : Job) → IsValid r → IsValid (displayed d r)
unfolding displayed
displayed-IsValid d r v = record {
  attempts = v.attempts;
  lease_pair = v.lease_pair;
  unowned = v.unowned;
  stage_runs = v.stage_runs;
  parked_uncancelled = v.parked_uncancelled;
}

-- a display update of the rows that pass the test
abbrev pub shown : (Job → Bool) → Display → Job → Job
shown q d = apply_where q (displayed d)

module _ (q : Job → Bool) (d : Display) where
  shown-IsValid : (rows : List Job) → All IsValid rows → All IsValid (map (shown q d) rows)
  shown-IsValid [] h = tt
  shown-IsValid (r ∷ rows) h = elim (Bool-cases (q r)) [
    | inl e ↦ rw e (displayed-IsValid d r h.0, shown-IsValid rows h.1)
    | inr e ↦ rw e (h.0, shown-IsValid rows h.1)
  ]

  same_clash : (a b : Job) → clash (shown q d a) (shown q d b) ≡ clash a b
  unfolding displayed
  same_clash a b = elim (Bool-cases (q a)) [
    | inl e ↦ elim (Bool-cases (q b)) [ inl o ↦ rw (e, o) refl | inr o ↦ rw (e, o) refl ]
    | inr e ↦ elim (Bool-cases (q b)) [ inl o ↦ rw (e, o) refl | inr o ↦ rw (e, o) refl ]
  ]

  clash-shown :
      (x : Job) (rows : List Job)
      → All (λ y. clash x y ≡ false) rows
      → All (λ y. clash (shown q d x) y ≡ false) (map (shown q d) rows)
  clash-shown x [] h = tt
  clash-shown x (r ∷ rows) h = (same_clash x r ∙ h.0, clash-shown x rows h.1)

  Distinct-shown : (rows : List Job) → Distinct rows → Distinct (map (shown q d) rows)
  Distinct-shown [] h = tt
  Distinct-shown (r ∷ rows) h = (clash-shown r rows h.0, Distinct-shown rows h.1)

  pub IsConsistent-shown :
      (rows : List Job) → IsConsistent rows → IsConsistent (map (shown q d) rows)
  IsConsistent-shown rows c = (shown-IsValid rows c.0, Distinct-shown rows c.1)

  IsKept-shown :
      (x y : Job)
      → (is_terminal x.status ≡ true → shown q d x ≡ x)
      → IsKept (shown q d x) y
      → IsKept x y
  unfolding displayed
  IsKept-shown x y still h = elim (Bool-cases (q x)) [
    | inr e ↦ subst (λ z. IsKept z y) (rw e refl) h
    | inl e ↦
        let k : IsKept (displayed d x) y = rw e at h in
        record {
          same_id = k.same_id;
          same_job_id = k.same_job_id;
          same_limit = k.same_limit;
          attempts_grow = k.attempts_grow;
          frozen = λ over.
              let w = still over in let s : displayed d x ≡ x = rw e at w in k.frozen over ∙ s;
        }
  ]

  -- what follows the display of an unfinished job follows the table as it was
  pub Evolves-shown :
      (rows ys : List Job)
      → All (λ x. is_terminal x.status ≡ true → shown q d x ≡ x) rows
      → Evolves IsKept (map (shown q d) rows) ys
      → Evolves IsKept rows ys
  Evolves-shown [] ys still h = tt
  Evolves-shown (x ∷ rows) [] still h = elim h [ ]
  Evolves-shown (x ∷ rows) (y ∷ ys) still h =
      (IsKept-shown x y still.0 h.0, Evolves-shown rows ys still.1 h.1)

-- the job that was read is the only row with its public id
apart :
    (x y : Job) (k : String)
    → clash x y ≡ false
    → str_eq x.job_id k ≡ true
    → str_eq y.job_id k ≡ false
apart x y k c e = elim (Bool-cases (str_eq y.job_id k)) [
  | inr o ↦ o
  | inl o ↦
      let same : x.job_id ≡ y.job_id = (eq_iff x.job_id k).0 e ∙ sym ((eq_iff y.job_id k).0 o) in
      absurd (false≢true (sym (clash_apart c) ∙ (eq_iff x.job_id y.job_id).1 same))
]
  where
    clash_apart : clash x y ≡ false → str_eq x.job_id y.job_id ≡ false
    clash_apart h = ground arith

others_apart :
    (x : Job) (rows : List Job) (k : String)
    → All (λ y. clash x y ≡ false) rows
    → str_eq x.job_id k ≡ true
    → All (λ y. str_eq y.job_id k ≡ false) rows
others_apart x [] k h e = tt
others_apart x (y ∷ rows) k h e = (apart x y k h.0 e, others_apart x rows k h.1 e)

one_row : (k : String) (rows : List Job) → Distinct rows → AtMostOne (λ j. str_eq j.job_id k) rows
one_row k [] h = tt
one_row k (x ∷ rows) h = ((λ e. others_apart x rows k h.0 e), one_row k rows h.1)

stays :
    (k : String) (d : Display) (job : Job) (rows : List Job)
    → is_terminal job.status ≡ false
    → All (λ x. str_eq x.job_id k ≡ true → x ≡ job) rows
    → All (λ x. is_terminal x.status ≡ true → shown (λ j. str_eq j.job_id k) d x ≡ x) rows
stays k d job [] live h = tt
stays k d job (x ∷ rows) live h = (
  (λ over. elim (Bool-cases (str_eq x.job_id k)) [
    | inr e ↦ rw e refl
    | inl e ↦
        absurd (false≢true (sym live ∙ ap (λ (j : Job). is_terminal j.status) (sym (h.0 e)) ∙ over))
  ]),
  stays k d job rows live h.1,
)

module _ (S : Sql) (L : IsLawful S) where
  pub IsConsistent-display :
      (k : String) (o : Option Display) (t : S.Table Job)
      → IsConsistent (S.rows t)
      → IsConsistent (S.rows (apply_display_update S k o t))
  unfolding apply_display_update
  IsConsistent-display k none t c = c
  IsConsistent-display k (some d) t c =
      rw (L.rows-update (λ row. str_eq row.job_id k) (displayed d) t)
        (IsConsistent-shown (λ row. str_eq row.job_id k) d (S.rows t) c)

  -- What follows the display of an unfinished job follows the table before the display.
  pub Follows-display :
      (k : String) (o : Option Display) (job : Job) (t u : S.Table Job)
      → get S k t ≡ some job
      → is_terminal job.status ≡ false
      → Follows S (apply_display_update S k o t) u
      → Follows S t u
  unfolding apply_display_update get
  Follows-display k none job t u found live h c = h c
  Follows-display k (some d) job t u found live h c =
      let q : Job → Bool = λ row. str_eq row.job_id k in
      let (c', e) = h (IsConsistent-display k (some d) t c) in
      let after : Evolves IsKept (map (shown q d) (S.rows t)) (S.rows u) =
        subst (λ rows. Evolves IsKept rows (S.rows u)) (L.rows-update q (displayed d) t) e in
      (
        c',
        Evolves-shown q d (S.rows t) (S.rows u)
            (stays k d job (S.rows t) live
              (first-IsOnly q (S.rows t) job (one_row k (S.rows t) c.1) found))
            after,
      )

  -- what a read gives after the display
  pub get-display :
      (k : String) (o : Option Display) (t : S.Table Job)
      → get S k (apply_display_update S k o t)
        ≡ map_option
            (λ j. elim o [ none ↦ j | some d ↦ shown (λ row. str_eq row.job_id k) d j ])
            (get S k t)
  unfolding apply_display_update
  get-display k none t = same (get S k t)
    where
      same : (x : Option Job) → x ≡ map_option (λ j. j) x
      same none = refl
      same (some x) = refl
  get-display k (some d) t =
      get-update S L k (λ row. str_eq row.job_id k) (displayed d) t (λ r. unfold displayed in refl)
