-- ===== src/Asr/Choice.antt =====
-- What `route_asr` of asr/routing.py chooses without a pinned provider.
use mathlib.Core.Path.{subst}
use evoblue_video_mcp.Prelude.{
  Bool, true, false, ◌||◌, ◌&&◌, any, Mem, All-Mem, mem-cons_self, mem-cons_of_mem, not, All-imp,
  select-false, arith, sym, ◌⊎◌, inl, inr, Option, none, some, List, [], ◌∷◌, ◌++◌, String, str_eq,
  first, select, All, some_eq, first-passes, eq_iff, All-both, All-select, Bool-cases, Option-cases,
  select_passes, All-first, ◌≡◌, refl, ◌∙◌, ap,
}
use evoblue_video_mcp.Sql.Keys.{first-absent}
use evoblue_video_mcp.Asr.Routing.{
  ProviderOption, RoutingDecision, supports, decision, is_provider, by_provider, preferred_ids,
  recommended_id, first_installed, ready, decide, route_asr,
}

-- the option takes the language, where one is known: its own or any
abbrev pub takes : Option String → ProviderOption → Bool
takes none o = true
takes (some lang) o = any (λ l. str_eq l "*" || str_eq l lang) o.languages

-- an installed option of the provider that takes the language
abbrev pub is_usable : Option String → String → ProviderOption → Bool
is_usable lang id o = takes lang o && (o.installed && str_eq o.provider_id id)

-- none of the options is usable for a preferred provider
abbrev pub NoneUsable : Option String → List ProviderOption → Type 0
NoneUsable lang options =
    All (λ id. All (λ o. is_usable lang id o ≡ false) options) (preferred_ids lang)

-- the decision for an option, with its flags
abbrev pub decision_for : Bool → Bool → ProviderOption → RoutingDecision
decision_for installed recommendation o = record {
  provider_id = o.provider_id;
  model_id = o.model_id;
  model_version = o.model_version;
  tier = o.tier;
  installed = installed;
  recommendation = recommendation;
  formal_default = o.formal_default;
}

-- the choice is one of the options: installed, able to take the language, and of a preferred provider
-- before which no option is usable
pub record Usable (lang : Option String) (options : List ProviderOption) (d : RoutingDecision)
    : Type 0 where
  pub option : ProviderOption
  pub offered : Mem option options
  pub chosen : d ≡ decision_for true false option
  pub installed : option.installed ≡ true
  pub compatible : takes lang option ≡ true
  pub before : List String
  pub after : List String
  pub preferred : preferred_ids lang ≡ before ++ option.provider_id ∷ after
  pub skipped : All (λ id. All (λ o. is_usable lang id o ≡ false) options) before

-- the choice is the option of the recommended provider, and no option is usable
pub record Recommended (lang : Option String) (options : List ProviderOption) (d : RoutingDecision)
    : Type 0 where
  pub option : ProviderOption
  pub offered : Mem option options
  pub chosen : d ≡ decision_for option.installed (not option.installed) option
  pub recommended : option.provider_id ≡ recommended_id lang
  pub none_usable : NoneUsable lang options

any_or :
    (p q : String → Bool) (xs : List String) → (any p xs || any q xs) ≡ any (λ x. p x || q x) xs
any_or p q [] = refl
any_or p q (x ∷ xs) =
    let rest = any_or p q xs in rw (← rest) (four (p x) (any p xs) (q x) (any q xs))
  where
    four : (a b c d : Bool) → ((a || b) || (c || d)) ≡ ((a || c) || (b || d))
    four a b c d = ground arith

takes-eq : (lang : Option String) (o : ProviderOption) → supports o lang ≡ takes lang o
unfolding supports
takes-eq none o = refl
takes-eq (some lang) o = any_or (λ l. str_eq l "*") (λ l. str_eq l lang) o.languages

none_installed :
    (ids : List String) (os : List ProviderOption)
    → first_installed ids os ≡ none
    → All (λ id. All (λ o. is_provider id o ≡ false) os) ids
unfolding first_installed
none_installed [] os h = tt
none_installed (id ∷ ids) os h = elim (Option-cases (first (is_provider id) os)) [
  | inl e ↦
      (first-absent (is_provider id) os e, none_installed ids os (rw (e, first_installed) at h))
  | inr (o, e) ↦ let c : some o ≡ none = rw (e, first_installed) at h in cc c
]

by_provider-names :
    (id : String) (os : List ProviderOption) (o : ProviderOption)
    → by_provider id os ≡ some o
    → o.provider_id ≡ id
unfolding by_provider
by_provider-names id [] o h = cc
by_provider-names id (p ∷ os) o h = elim (Option-cases (by_provider id os)) [
  | inr (q, e) ↦
      let c : some q ≡ some o = rw (e, by_provider) at h in by_provider-names id os o (e ∙ c)
  | inl e ↦ elim (Bool-cases (is_provider id p)) [
    | inr f ↦ let c : none ≡ some o = rw (e, f, by_provider) at h in cc c
    | inl f ↦
        let c : some p ≡ some o = rw (e, f, by_provider) at h in
        subst (λ (x : ProviderOption). x.provider_id ≡ id) (some_eq p o c)
          ((eq_iff p.provider_id id).0 f)
  ]
]

by_provider-Mem :
    (id : String) (os : List ProviderOption) (o : ProviderOption)
    → by_provider id os ≡ some o
    → Mem o os
unfolding by_provider
by_provider-Mem id [] o h = cc
by_provider-Mem id (p ∷ os) o h = elim (Option-cases (by_provider id os)) [
  | inr (q, e) ↦
      let c : some q ≡ some o = rw (e, by_provider) at h in
      mem-cons_of_mem p (by_provider-Mem id os o (e ∙ c))
  | inl e ↦ elim (Bool-cases (is_provider id p)) [
    | inr f ↦ let c : none ≡ some o = rw (e, f, by_provider) at h in cc c
    | inl f ↦
        let c : some p ≡ some o = rw (e, f, by_provider) at h in
        subst (λ x. Mem x (p ∷ os)) (some_eq p o c) mem-cons_self
  ]
]

by_provider_absent :
    (id : String) (os : List ProviderOption)
    → by_provider id os ≡ none
    → All (λ o. is_provider id o ≡ false) os
unfolding by_provider
by_provider_absent id [] h = tt
by_provider_absent id (p ∷ os) h = elim (Option-cases (by_provider id os)) [
  | inr (q, e) ↦ let c : some q ≡ none = rw (e, by_provider) at h in cc c
  | inl e ↦ elim (Bool-cases (is_provider id p)) [
    | inl f ↦ let c : some p ≡ none = rw (e, f, by_provider) at h in cc c
    | inr f ↦ (f, by_provider_absent id os e)
  ]
]

-- the option that the loop finds, and the providers that it passes over
found_installed :
    (ids : List String) (os : List ProviderOption) (o : ProviderOption)
    → first_installed ids os ≡ some o
    → (id : String) × (before : List String) × (after : List String) × (first (is_provider id) os
        ≡ some o)
      × (ids ≡ before ++ id ∷ after)
      × All (λ i. All (λ x. is_provider i x ≡ false) os) before
unfolding first_installed
found_installed [] os o h = cc
found_installed (id ∷ ids) os o h = elim (Option-cases (first (is_provider id) os)) [
  | inr (q, e) ↦
      let c : some q ≡ some o = rw (e, first_installed) at h in (id, [], ids, e ∙ c, refl, tt)
  | inl e ↦
      let (i, before, after, found, split, skipped) =
        found_installed ids os o (rw (e, first_installed) at h) in
      (
        i,
        id ∷ before,
        after,
        found,
        ap (λ is. id ∷ is) split,
        (first-absent (is_provider id) os e, skipped),
      )
]

abbrev OfOptions : Option String → List ProviderOption → ProviderOption → Type 0
OfOptions lang os o = (o.installed ≡ true) × (takes lang o ≡ true) × Mem o os

ready_options :
    (lang : Option String) (os : List ProviderOption) → All (OfOptions lang os) (ready lang os)
unfolding ready
ready_options lang os =
    let fits = λ (o : ProviderOption). supports o lang in
    let compatible = select fits os in
    All-both (λ o. o.installed ≡ true) (λ o. (takes lang o ≡ true) × Mem o os) (OfOptions lang os)
      (select (λ o. o.installed) compatible) (λ o a b. (a, b.0, b.1))
      (select_passes (λ o. o.installed) compatible)
      (All-select (λ o. (takes lang o ≡ true) × Mem o os) (λ o. o.installed) compatible
        (All-both (λ o. supports o lang ≡ true) (λ o. Mem o os)
          (λ o. (takes lang o ≡ true) × Mem o os) compatible
          (λ o a b. (sym (takes-eq lang o) ∙ a, b)) (select_passes fits os)
          (All-select (λ o. Mem o os) fits os (All-Mem os))))

-- no option of the provider is among those that are ready, so none is usable
none_usable_of :
    (lang : Option String) (os : List ProviderOption) (ids : List String)
    → All (λ id. All (λ o. is_provider id o ≡ false) (ready lang os)) ids
    → All (λ id. All (λ o. is_usable lang id o ≡ false) os) ids
unfolding ready
none_usable_of lang os [] h = tt
none_usable_of lang os (id ∷ ids) h =
    let installed = λ (o : ProviderOption). o.installed in
    let fits = λ (o : ProviderOption). supports o lang in
    (
      All-imp (λ o. (supports o lang && (o.installed && is_provider id o)) ≡ false)
          (λ o. is_usable lang id o ≡ false) os (λ o k. rw (← takes-eq lang o) k)
          (select-false fits (λ o. o.installed && is_provider id o) os
            (select-false installed (is_provider id) (select fits os) h.0)),
      none_usable_of lang os ids h.1,
    )

module _ (lang : Option String) (options : List ProviderOption) where
  none_usable :
      first_installed (preferred_ids lang) (ready lang options) ≡ none → NoneUsable lang options
  none_usable e =
      none_usable_of lang options (preferred_ids lang)
        (none_installed (preferred_ids lang) (ready lang options) e)

  -- Without a pinned provider route_asr decides for one of the options that is installed, takes
  -- the language and is of a preferred provider, where no option is such for a provider preferred
  -- before it; or, only if no option is such for any preferred provider, for an option of the
  -- recommended provider, as a recommendation if it is not installed; and it raises only if there
  -- is no such option and no option of the recommended provider.
  pub route_asr_auto :
      ((d : RoutingDecision) × (route_asr lang "auto" options ≡ some d)
        × (Usable lang options d ⊎ Recommended lang options d))
      ⊎ ((route_asr lang "auto" options ≡ none)
          × NoneUsable lang options
          × All (λ o. str_eq o.provider_id (recommended_id lang) ≡ false) options)
  unfolding route_asr decide
  route_asr_auto = elim (Option-cases (first_installed (preferred_ids lang) (ready lang options))) [
    | inr (o, e) ↦
        let (id, before, after, found, split, skipped) =
          found_installed (preferred_ids lang) (ready lang options) o e in
        let (on, fits, offered) =
          All-first (OfOptions lang options) (is_provider id) (ready lang options) o
            (ready_options lang options) found in
        let named : o.provider_id ≡ id =
          (eq_iff o.provider_id id).0
            (first-passes (is_provider id) (ready lang options) o found) in
        inl (
          decision o,
          (rw (e, route_asr) refl),
          inl (record {
            option = o;
            offered = offered;
            chosen = unfold decision in rw on refl;
            installed = on;
            compatible = fits;
            before = before;
            after = after;
            preferred = split ∙ ap (λ i. before ++ i ∷ after) (sym named);
            skipped = none_usable_of lang options before skipped;
          }),
        )
    | inl e ↦ elim (Option-cases (by_provider (recommended_id lang) options)) [
      | inl f ↦ inr (
        (rw (e, f, route_asr) refl),
        none_usable e,
        by_provider_absent (recommended_id lang) options f,
      )
      | inr (o, f) ↦ inl (
        decision o,
        (rw (e, f, route_asr) refl),
        inr (record {
          option = o;
          offered = by_provider-Mem (recommended_id lang) options o f;
          chosen = unfold decision in refl;
          recommended = by_provider-names (recommended_id lang) options o f;
          none_usable = none_usable e;
        }),
      )
    ]
  ]
