-- ===== src/Config/Equality.antt =====
-- Equality of JSON values with themselves.
use evoblue_video_mcp.Prelude.{
  Bool, true, false, ◌&&◌, not, some, List, [], ◌∷◌, String, str_eq, eq_iff, inl, inr, Bool-cases,
  &&-eq_true, ==_self, if◌then◌else◌, ◌≡◌, refl, ◌∙◌, ap,
}
use evoblue_video_mcp.Config.Json.{
  Json, null, boolean, number, text, array, object, Jsons, end, item, Fields, empty, field, has,
  get, holds_of, count, json_eq, array_eq, is_within, accepts_pairs, accepts_items, accepts_fields,
}
use evoblue_video_mcp.Config.Merge.{names_eq}
use evoblue_video_mcp.Config.Dicts.{negated, str_eq_flip}

-- a key that the dictionary does not use is not looked at
within_more :
    (j : String) (w : Json) (a b : Fields)
    → has j a ≡ false
    → is_within a (field j w b) ≡ is_within a b
unfolding is_within has get
within_more j w empty b h = refl
within_more j w (field k v a) b h = elim (Bool-cases (str_eq k j)) [
  | inl e ↦ let c : true ≡ false = rw (e, has) at h in cc c
  | inr e ↦
      let c : has j a ≡ false = rw (e, has) at h in
      let f : str_eq j k ≡ false = str_eq_flip k j e in
      let same_value : get k (field j w b) ≡ get k b = rw (f, get) refl in
      ap (λ o. holds_of (json_eq v) o && is_within a (field j w b)) same_value
      ∙ ap (λ t. holds_of (json_eq v) (get k b) && t) (within_more j w a b c)
]

both : (a b : Bool) → a ≡ true → b ≡ true → (a && b) ≡ true
both a b e f = rw (e, f) refl

self_eq : (b : Bool) → (if b then b else not b) ≡ true
self_eq true = refl
self_eq false = refl

mutual
  unfolding json_eq array_eq is_within accepts_pairs accepts_fields accepts_items get

  pub json_eq_self : (v : Json) → accepts_pairs v ≡ true → json_eq v v ≡ true
  json_eq_self null h = refl
  json_eq_self (boolean b) h = self_eq b
  json_eq_self (number s) h = (eq_iff s s).1 refl
  json_eq_self (text s) h = (eq_iff s s).1 refl
  json_eq_self (array a) h = array_eq_self a h
  json_eq_self (object d) h = rw (==_self (count d), within_self d h) refl

  array_eq_self : (a : Jsons) → accepts_items a ≡ true → array_eq a a ≡ true
  array_eq_self end h = refl
  array_eq_self (item v rest) h =
      let (first, second) = &&-eq_true (accepts_pairs v) (accepts_items rest) h in
      rw (json_eq_self v first, array_eq_self rest second) refl

  within_self : (d : Fields) → accepts_fields d ≡ true → is_within d d ≡ true
  within_self empty h = refl
  within_self (field k v d) h =
      let (first, rest) = &&-eq_true (not (has k d)) _ h in
      let (second, third) = &&-eq_true (accepts_pairs v) (accepts_fields d) rest in
      let found : get k (field k v d) ≡ some v = rw ((eq_iff k k).1 refl) refl in
      ap (λ o. holds_of (json_eq v) o && is_within d (field k v d)) found
      ∙ both (json_eq v v) (is_within d (field k v d)) (json_eq_self v second)
          (within_more k v d d (negated _ first) ∙ within_self d third)

pub names_eq_self : (names : List String) → names_eq names names ≡ true
names_eq_self [] = refl
names_eq_self (a ∷ rest) = rw ((eq_iff a a).1 refl, names_eq_self rest) refl
