-- ===== src/Config/Dicts.antt =====
-- Dictionaries: writing, removing and reading back, and equality with themselves.
use mathlib.Core.Path.{subst}
use mathlib.Core.Bool.{false≢true}
use evoblue_video_mcp.Prelude.{
  Bool, true, false, ◌||◌, not, inl, inr, none, some, [], ◌∷◌, ◌++◌, String, str_eq, eq_iff, any,
  select, Bool-cases, &&-eq_true, ◌≡◌, refl, sym, ◌∙◌, ap, some_eq,
}
use evoblue_video_mcp.Config.Json.{
  Json, Fields, empty, field, has, get, put, remove, keys, accepts_pairs, accepts_fields,
}

module _ (k : String) where
  pub get-put : (v : Json) (d : Fields) → get k (put k v d) ≡ some v
  unfolding get put
  get-put v empty = rw ((eq_iff k k).1 refl) refl
  get-put v (field j w d) = elim (Bool-cases (str_eq j k)) [
    | inl e ↦ rw (e, get) (rw (e, get) refl)
    | inr e ↦ rw (e, get) (rw (e, get-put v d, get) refl)
  ]

  pub has-put : (v : Json) (d : Fields) → has k (put k v d) ≡ true
  unfolding has put
  has-put v empty = rw ((eq_iff k k).1 refl) refl
  has-put v (field j w d) = elim (Bool-cases (str_eq j k)) [
    | inl e ↦ rw (e, has) (rw (e, has) refl)
    | inr e ↦ rw (e, has) (rw (e, has-put v d, has) refl)
  ]

  pub remove-put : (v : Json) (d : Fields) → remove k (put k v d) ≡ remove k d
  unfolding remove put
  remove-put v empty = rw ((eq_iff k k).1 refl) refl
  remove-put v (field j w d) = elim (Bool-cases (str_eq j k)) [
    | inl e ↦ rw (e, remove) (rw (e, remove) refl)
    | inr e ↦ rw (e, remove) (rw (e, remove-put v d, remove) refl)
  ]

  pub put-put : (v w : Json) (d : Fields) → put k v (put k w d) ≡ put k v d
  unfolding put
  put-put v w empty = rw ((eq_iff k k).1 refl) refl
  put-put v w (field j x d) = elim (Bool-cases (str_eq j k)) [
    | inl e ↦ rw (e, put) (rw (e, put) refl)
    | inr e ↦ rw (e, put) (rw (e, put-put v w d, put) refl)
  ]

  pub remove_absent : (d : Fields) → has k d ≡ false → remove k d ≡ d
  unfolding remove has
  remove_absent empty h = refl
  remove_absent (field j v d) h = elim (Bool-cases (str_eq j k)) [
    | inl e ↦ let c : true ≡ false = rw (e, has) at h in cc c
    | inr e ↦ let c : has k d ≡ false = rw (e, has) at h in rw (e, remove_absent d c, remove) refl
  ]

  pub has-remove : (d : Fields) → has k (remove k d) ≡ false
  unfolding remove has
  has-remove empty = refl
  has-remove (field j v d) = elim (Bool-cases (str_eq j k)) [
    | inl e ↦ rw (e, remove) (has-remove d)
    | inr e ↦ rw (e, remove) (rw (e, has) (has-remove d))
  ]

  pub absent : (d : Fields) → get k d ≡ none → has k d ≡ false
  unfolding get has
  absent empty h = refl
  absent (field j v d) h = elim (Bool-cases (str_eq j k)) [
    | inl e ↦ let c : some v ≡ none = rw (e, get) at h in cc c
    | inr e ↦ let c : get k d ≡ none = rw (e, get) at h in rw (e, has) (absent d c)
  ]

  pub missing : (d : Fields) → has k d ≡ false → get k d ≡ none
  unfolding get has
  missing empty h = refl
  missing (field j v d) h = elim (Bool-cases (str_eq j k)) [
    | inl e ↦ let c : true ≡ false = rw (e, has) at h in cc c
    | inr e ↦ let c : has k d ≡ false = rw (e, has) at h in rw (e, get) (missing d c)
  ]

  pub keys-put : (v : Json) (d : Fields) → has k d ≡ false → keys (put k v d) ≡ keys d ++ k ∷ []
  unfolding keys put has
  keys-put v empty h = refl
  keys-put v (field j w d) h = elim (Bool-cases (str_eq j k)) [
    | inl e ↦ let c : true ≡ false = rw (e, has) at h in cc c
    | inr e ↦
        let c : has k d ≡ false = rw (e, has) at h in
        rw (e, put) (unfold keys in ap (λ ks. j ∷ ks) (keys-put v d c))
  ]

  pub keys-remove : (d : Fields) → keys (remove k d) ≡ select (λ name. not (str_eq name k)) (keys d)
  unfolding keys remove
  keys-remove empty = refl
  keys-remove (field j v d) = elim (Bool-cases (str_eq j k)) [
    | inl e ↦ rw (e, remove) (keys-remove d)
    | inr e ↦ rw (e, remove) (ap (λ ks. j ∷ ks) (keys-remove d))
  ]

  pub any-keys : (d : Fields) → any (λ name. str_eq name k) (keys d) ≡ has k d
  unfolding keys has
  any-keys empty = refl
  any-keys (field j v d) = ap (λ b. str_eq j k || b) (any-keys d)

-- writing under another key, and removing one, adds no key
has_other-put :
    (j k : String) (v : Json) (d : Fields) → str_eq k j ≡ false → has j (put k v d) ≡ has j d
unfolding has put
has_other-put j k v empty h = rw h refl
has_other-put j k v (field i w d) h = elim (Bool-cases (str_eq i k)) [
  | inl e ↦ rw (e, put) refl
  | inr e ↦ rw (e, put) (ap (λ b. str_eq i j || b) (has_other-put j k v d h))
]

has_other-remove : (j k : String) (d : Fields) → has j d ≡ false → has j (remove k d) ≡ false
unfolding has remove
has_other-remove j k empty h = refl
has_other-remove j k (field i w d) h = elim (Bool-cases (str_eq i j)) [
  | inl e ↦ let c : true ≡ false = rw (e, has) at h in cc c
  | inr e ↦
      let c : has j d ≡ false = rw (e, has) at h in
      elim (Bool-cases (str_eq i k)) [
        | inl f ↦ rw (f, remove) (has_other-remove j k d c)
        | inr f ↦ rw (f, remove) (rw (e, has) (has_other-remove j k d c))
      ]
]

-- two names differ both ways round
pub str_eq_flip : (a b : String) → str_eq a b ≡ false → str_eq b a ≡ false
str_eq_flip a b n = elim (Bool-cases (str_eq b a)) [
  | inr e ↦ e
  | inl e ↦ absurd (false≢true (sym n ∙ (eq_iff a b).1 (sym ((eq_iff b a).0 e))))
]

pub negated : (b : Bool) → not b ≡ true → b ≡ false
negated true n = cc
negated false n = refl

pub put-accepts :
    (k : String) (v : Json) (d : Fields)
    → accepts_pairs v ≡ true
    → accepts_fields d ≡ true
    → accepts_fields (put k v d) ≡ true
unfolding put accepts_pairs
put-accepts k v empty h g = rw h refl
put-accepts k v (field i w d) h g =
    let (first, rest) = &&-eq_true (not (has i d)) _ g in
    let (second, third) = &&-eq_true (accepts_pairs w) (accepts_fields d) rest in
    elim (Bool-cases (str_eq i k)) [
      | inl e ↦ rw (e, put) (rw (h, third, negated _ first) refl)
      | inr e ↦
          rw (e, put)
            (rw
              (
                second,
                put-accepts k v d h third,
                has_other-put i k v d (str_eq_flip i k e),
                negated _ first,
              )
              refl)
    ]

pub remove-accepts :
    (k : String) (d : Fields) → accepts_fields d ≡ true → accepts_fields (remove k d) ≡ true
unfolding remove accepts_pairs
remove-accepts k empty g = refl
remove-accepts k (field i w d) g =
    let (first, rest) = &&-eq_true (not (has i d)) _ g in
    let (second, third) = &&-eq_true (accepts_pairs w) (accepts_fields d) rest in
    elim (Bool-cases (str_eq i k)) [
      | inl e ↦ rw (e, remove) (remove-accepts k d third)
      | inr e ↦
          rw (e, remove)
            (rw (second, remove-accepts k d third, has_other-remove i k d (negated _ first)) refl)
    ]

-- a value that the dictionary gave is accepted
pub get-accepts :
    (k : String) (v : Json) (d : Fields)
    → accepts_fields d ≡ true
    → get k d ≡ some v
    → accepts_pairs v ≡ true
unfolding get accepts_pairs
get-accepts k v empty g h = cc
get-accepts k v (field i w d) g h =
    let (first, rest) = &&-eq_true (not (has i d)) _ g in
    let (second, third) = &&-eq_true (accepts_pairs w) (accepts_fields d) rest in
    elim (Bool-cases (str_eq i k)) [
      | inl e ↦
          let c : some w ≡ some v = rw (e, get) at h in
          subst (λ x. accepts_pairs x ≡ true) (some_eq w v c) second
      | inr e ↦ let c : get k d ≡ some v = rw (e, get) at h in get-accepts k v d third c
    ]

pub keys-put_present :
    (k : String) (v : Json) (d : Fields) → has k d ≡ true → keys (put k v d) ≡ keys d
unfolding keys put has
keys-put_present k v empty h = cc
keys-put_present k v (field j w d) h = elim (Bool-cases (str_eq j k)) [
  | inl e ↦ rw (e, put) refl
  | inr e ↦
      let c : has k d ≡ true = rw (e, has) at h in
      rw (e, put) (ap (λ ks. j ∷ ks) (keys-put_present k v d c))
]
