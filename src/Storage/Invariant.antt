-- ===== src/Storage/Invariant.antt =====
-- What holds of every row of the job table, how one operation may change a row, and the rules by
-- which an operation is shown to respect both.
use mathlib.Core.Path.{subst}
use evoblue_video_mcp.Prelude.{
  ◌==◌, ◌≤◌, Bool, true, false, ◌||◌, ◌⊎◌, inl, Option, none, some, List, [], ◌∷◌, ◌++◌, str_eq,
  map, is_some, All, ◌≡◌, refl, sym, ◌∙◌, arith,
}
use evoblue_video_mcp.Jobs.States.{
  JobStatus, queued, waiting_for_model, cancelled, same, is_terminal,
}
use evoblue_video_mcp.Jobs.Transitions.{is_running, is_valid_transition}
use evoblue_video_mcp.Storage.Models.{Job}

-- no worker owns a job in such a state
unfoldable pub is_unowned : JobStatus → Bool
is_unowned s = is_terminal s || (same s queued || same s waiting_for_model)

unfoldable pub runs_stage : Option JobStatus → Bool
runs_stage none = true
runs_stage (some s) = is_running s

pub record IsValid (j : Job) : Type 0 where
  pub attempts : j.attempt ≤ j.max_attempts
  pub lease_pair : is_some j.lease_owner ≡ is_some j.lease_expires_at
  pub unowned : is_unowned j.status ≡ true → j.lease_expires_at ≡ none
  pub stage_runs : runs_stage j.stage ≡ true
  pub parked_uncancelled : j.status ≡ waiting_for_model → j.cancel_requested_at ≡ none

-- What no operation changes in a row; a row in a terminal state is not changed at all.
pub record IsKept (x y : Job) : Type 0 where
  pub same_id : y.id ≡ x.id
  pub same_job_id : y.job_id ≡ x.job_id
  pub same_limit : y.max_attempts ≡ x.max_attempts
  pub attempts_grow : x.attempt ≤ y.attempt
  pub frozen : is_terminal x.status ≡ true → y ≡ x

-- One operation: the status stays, follows the transition table, or a live job is cancelled.
pub record Moves (x y : Job) : Type 0 where
  pub kept : IsKept x y
  pub status :
      (y.status ≡ x.status)
      ⊎ (is_valid_transition x.status y.status ≡ true)
      ⊎ ((is_terminal x.status ≡ false) × (y.status ≡ cancelled))

-- The rows in their order, related one by one; the later list may have new rows at its end.
abbrev pub Evolves : (Job → Job → Type 0) → List Job → List Job → Type 0
Evolves R [] ys = Unit
Evolves R (x ∷ xs) [] = ⊥
Evolves R (x ∷ xs) (y ∷ ys) = R x y × Evolves R xs ys

abbrev pub clash : Job → Job → Bool
clash a b = a.id == b.id || str_eq a.job_id b.job_id

-- The columns `id` and `job_id` are unique.
abbrev pub Distinct : List Job → Type 0
Distinct [] = Unit
Distinct (x ∷ xs) = All (λ y. clash x y ≡ false) xs × Distinct xs

abbrev pub IsConsistent : List Job → Type 0
IsConsistent rows = All IsValid rows × Distinct rows

pub IsKept-refl : (x : Job) → IsKept x x
IsKept-refl x = record {
  same_id = refl;
  same_job_id = refl;
  same_limit = refl;
  attempts_grow = omega arith;
  frozen = λ h. refl;
}

pub Moves-refl : (x : Job) → Moves x x
Moves-refl x = record { kept = IsKept-refl x; status = inl refl }

pub IsKept-trans : {x y z : Job} → IsKept x y → IsKept y z → IsKept x z
IsKept-trans {x} {y} {z} h k = record {
  same_id = cc (h.same_id, k.same_id);
  same_job_id = cc (h.same_job_id, k.same_job_id);
  same_limit = cc (h.same_limit, k.same_limit);
  attempts_grow = omega (arith, h.attempts_grow, k.attempts_grow);
  frozen = λ t.
      let e : y ≡ x = h.frozen t in
      k.frozen (subst (λ (w : Job). is_terminal w.status ≡ true) (sym e) t) ∙ e;
}

module _ (R : Job → Job → Type 0) where
  pub Evolves-map :
      (g : Job → Job) (xs : List Job) → All (λ x. R x (g x)) xs → Evolves R xs (map g xs)
  Evolves-map g [] h = tt
  Evolves-map g (x ∷ xs) h = (h.0, Evolves-map g xs h.1)

  pub Evolves-grow : ((x : Job) → R x x) → (xs ys : List Job) → Evolves R xs (xs ++ ys)
  Evolves-grow r [] ys = tt
  Evolves-grow r (x ∷ xs) ys = (r x, Evolves-grow r xs ys)

  pub Evolves-refl : ((x : Job) → R x x) → (xs : List Job) → Evolves R xs xs
  Evolves-refl r [] = tt
  Evolves-refl r (x ∷ xs) = (r x, Evolves-refl r xs)

pub Evolves-trans :
    (xs ys zs : List Job) → Evolves IsKept xs ys → Evolves IsKept ys zs → Evolves IsKept xs zs
Evolves-trans [] ys zs h k = tt
Evolves-trans (x ∷ xs) [] zs h k = elim h [ ]
Evolves-trans (x ∷ xs) (y ∷ ys) [] h k = elim k [ ]
Evolves-trans (x ∷ xs) (y ∷ ys) (z ∷ zs) h k =
    (IsKept-trans h.0 k.0, Evolves-trans xs ys zs h.1 k.1)

pub Evolves-Moves : (xs ys : List Job) → Evolves Moves xs ys → Evolves IsKept xs ys
Evolves-Moves [] ys h = tt
Evolves-Moves (x ∷ xs) [] h = h
Evolves-Moves (x ∷ xs) (y ∷ ys) h = (h.0.kept, Evolves-Moves xs ys h.1)

clash-kept :
    (x y : Job) {x' y' : Job} → IsKept x x' → IsKept y y' → clash x y ≡ false → clash x' y' ≡ false
clash-kept x y {x'} {y'} h k c = rw (h.same_id, h.same_job_id, k.same_id, k.same_job_id) c

clashes-kept :
    (g : Job → Job) (x : Job) (ys : List Job)
    → IsKept x (g x)
    → All (λ y. IsKept y (g y)) ys
    → All (λ y. clash x y ≡ false) ys
    → All (λ y. clash (g x) y ≡ false) (map g ys)
clashes-kept g x [] h k c = tt
clashes-kept g x (y ∷ ys) h k c = (clash-kept x y h k.0 c.0, clashes-kept g x ys h k.1 c.1)

pub Distinct-map :
    (g : Job → Job) (xs : List Job)
    → All (λ x. IsKept x (g x)) xs
    → Distinct xs
    → Distinct (map g xs)
Distinct-map g [] h d = tt
Distinct-map g (x ∷ xs) h d = (clashes-kept g x xs h.0 h.1 d.0, Distinct-map g xs h.1 d.1)
