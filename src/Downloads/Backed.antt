-- ===== src/Downloads/Backed.antt =====
-- The installed and the active models: unique keys, and every active version is installed.
use mathlib.Core.Path.{subst}
use evoblue_video_mcp.Prelude.{
  ℕ, Bool, true, false, not, inl, inr, none, List, [], ◌∷◌, ◌++◌, String, str_eq, map, first,
  select, is_some, All, All-append, All-imp, All-every, eq_iff, Bool-cases, &&-eq_true, ◌≡◌, refl,
  sym, ◌∙◌,
}
use evoblue_video_mcp.Sql.{apply_where}
use evoblue_video_mcp.Sql.Keys.{
  AtMostOne, AtMostOne-map, AtMostOne-insert, AtMostOne-select, first-absent,
}
use evoblue_video_mcp.Downloads.Registry.{ModelInstall, ActiveModel, is_install, is_active_of}

abbrev pub HasInstall : List ModelInstall → ActiveModel → Type 0
HasInstall is a = is_some (first (is_install a.model_id a.active_version) is) ≡ true

pub record IsBacked (is : List ModelInstall) (es : List ActiveModel) : Type 0 where
  pub installs : (m v : String) → AtMostOne (is_install m v) is
  pub actives : (m : String) → AtMostOne (is_active_of m) es
  pub backed : All (HasInstall is) es

-- a read that found a row finds one in a longer table
module _ {R : Type 0} (p : R → Bool) where
  some-append : (xs ys : List R) → is_some (first p xs) ≡ true → is_some (first p (xs ++ ys)) ≡ true
  some-append [] ys h = cc
  some-append (x ∷ xs) ys h = elim (Bool-cases (p x)) [
    | inl e ↦ rw e refl
    | inr e ↦ rw e (some-append xs ys (rw e at h))
  ]

  pub some-map :
      (g : R → R) (xs : List R)
      → ((x : R) → p (g x) ≡ p x)
      → is_some (first p xs) ≡ true
      → is_some (first p (map g xs)) ≡ true
  some-map g [] keeps h = h
  some-map g (x ∷ xs) keeps h = elim (Bool-cases (p x)) [
    | inl e ↦ rw (keeps x, e) refl
    | inr e ↦ rw (keeps x, e) (some-map g xs keeps (rw e at h))
  ]

  some-select :
      (q : R → Bool) (xs : List R)
      → ((x : R) → p x ≡ true → q x ≡ true)
      → is_some (first p xs) ≡ true
      → is_some (first p (select q xs)) ≡ true
  some-select q [] k h = h
  some-select q (x ∷ xs) k h = elim (Bool-cases (p x)) [
    | inl e ↦ rw (k x e, e) refl
    | inr e ↦ elim (Bool-cases (q x)) [
      | inl t ↦ rw (t, e) (some-select q xs k (rw e at h))
      | inr t ↦ rw t (some-select q xs k (rw e at h))
    ]
  ]

pub install_inserted :
    (i : ModelInstall) (is : List ModelInstall) (es : List ActiveModel)
    → first (is_install i.model_id i.version) is ≡ none
    → IsBacked is es
    → IsBacked (is ++ i ∷ []) es
unfolding is_install
install_inserted i is es absent h = record {
  installs = λ m v. AtMostOne-insert (is_install m v) is i (alone m v) (h.installs m v);
  actives = h.actives;
  backed =
      All-imp (HasInstall is) (HasInstall (is ++ i ∷ [])) es
        (λ a k. some-append (is_install a.model_id a.active_version) is (i ∷ []) k) h.backed;
}
  where
    alone : (m v : String) → is_install m v i ≡ true → All (λ y. is_install m v y ≡ false) is
    alone m v e =
        let (em, ev) = &&-eq_true (str_eq i.model_id m) (str_eq i.version v) e in
        subst (λ w. All (λ y. is_install m w y ≡ false) is) ((eq_iff i.version v).0 ev)
          (subst (λ w. All (λ y. is_install w i.version y ≡ false) is) ((eq_iff i.model_id m).0 em)
            (first-absent (is_install i.model_id i.version) is absent))

pub installs_mapped :
    (g : ModelInstall → ModelInstall) (is : List ModelInstall) (es : List ActiveModel)
    → ((m v : String) (i : ModelInstall) → is_install m v (g i) ≡ is_install m v i)
    → IsBacked is es
    → IsBacked (map g is) es
installs_mapped g is es keeps h = record {
  installs = λ m v.
      AtMostOne-map (is_install m v) g is
        (All-every (λ i. is_install m v i ≡ false → is_install m v (g i) ≡ false) is
          (λ i e. keeps m v i ∙ e))
        (h.installs m v);
  actives = h.actives;
  backed =
      All-imp (HasInstall is) (HasInstall (map g is)) es
        (λ a k.
          some-map (is_install a.model_id a.active_version) g is (keeps a.model_id a.active_version)
            k)
        h.backed;
}

pub active_inserted :
    (a : ActiveModel) (is : List ModelInstall) (es : List ActiveModel)
    → first (is_active_of a.model_id) es ≡ none
    → HasInstall is a
    → IsBacked is es
    → IsBacked is (es ++ a ∷ [])
unfolding is_active_of
active_inserted a is es absent there h = record {
  installs = h.installs;
  actives = λ m.
      AtMostOne-insert (is_active_of m) es a
        (λ e.
          subst (λ w. All (λ y. is_active_of w y ≡ false) es) ((eq_iff a.model_id m).0 e)
            (first-absent (is_active_of a.model_id) es absent))
        (h.actives m);
  backed = All-append (HasInstall is) es (a ∷ []) h.backed (there, tt);
}

pub active_switched :
    (m v : String) (now : ℕ) (is : List ModelInstall) (es : List ActiveModel)
    → is_some (first (is_install m v) is) ≡ true
    → IsBacked is es
    → IsBacked is (
        map
          (apply_where (is_active_of m) (λ a. record a { active_version = v; updated_at = now }))
          es)
unfolding is_active_of
active_switched m v now is es there h = record {
  installs = h.installs;
  actives = λ k.
      AtMostOne-map (is_active_of k) g es
        (All-every (λ a. is_active_of k a ≡ false → is_active_of k (g a) ≡ false) es (stays k))
        (h.actives k);
  backed = installed_all es h.backed;
}
  where
    g : ActiveModel → ActiveModel
    g = apply_where (is_active_of m) (λ a. record a { active_version = v; updated_at = now })

    stays : (k : String) (a : ActiveModel) → is_active_of k a ≡ false → is_active_of k (g a) ≡ false
    stays k a e = elim (Bool-cases (is_active_of m a)) [ inl t ↦ rw t e | inr t ↦ rw t e ]

    installed : (a : ActiveModel) → HasInstall is a → HasInstall is (g a)
    installed a k = elim (Bool-cases (is_active_of m a)) [
      | inr t ↦ rw t k
      | inl t ↦ rw t (
          subst (λ w. is_some (first (is_install w v) is) ≡ true) (sym ((eq_iff a.model_id m).0 t))
            there)
    ]

    installed_all :
        (xs : List ActiveModel) → All (HasInstall is) xs → All (HasInstall is) (map g xs)
    installed_all [] k = tt
    installed_all (a ∷ xs) k = (installed a k.0, installed_all xs k.1)

pub model_deleted :
    (m : String) (is : List ModelInstall) (es : List ActiveModel)
    → IsBacked is es
    → IsBacked
        (select (λ i. not (str_eq i.model_id m)) is)
        (select (λ a. not (str_eq a.model_id m)) es)
unfolding is_install is_active_of
model_deleted m is es h = record {
  installs = λ k v. AtMostOne-select (is_install k v) _ is (h.installs k v);
  actives = λ k. AtMostOne-select (is_active_of k) _ es (h.actives k);
  backed = others es h.backed;
}
  where
    other :
        (a : ActiveModel) (i : ModelInstall)
        → str_eq a.model_id m ≡ false
        → is_install a.model_id a.active_version i ≡ true
        → not (str_eq i.model_id m) ≡ true
    other a i e k =
        let same =
          (&&-eq_true (str_eq i.model_id a.model_id) (str_eq i.version a.active_version) k).0 in
        subst (λ w. not (str_eq w m) ≡ true) (sym ((eq_iff i.model_id a.model_id).0 same))
          (rw e refl)

    others :
        (xs : List ActiveModel)
        → All (HasInstall is) xs
        → All
            (HasInstall (select (λ i. not (str_eq i.model_id m)) is))
            (select (λ a. not (str_eq a.model_id m)) xs)
    others [] k = tt
    others (a ∷ xs) k = elim (Bool-cases (str_eq a.model_id m)) [
      | inl e ↦ rw e (others xs k.1)
      | inr e ↦ rw e (
        some-select (is_install a.model_id a.active_version) (λ i. not (str_eq i.model_id m)) is
            (λ i. other a i e) k.0,
        others xs k.1,
      )
    ]
