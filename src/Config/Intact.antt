-- ===== src/Config/Intact.antt =====
-- The proofs that follow a write pass: nothing outside the entry has changed.
use evoblue_video_mcp.Prelude.{
  Bool, true, false, ◌&&◌, not, ◌⊎◌, inl, inr, none, some, List, [], ◌∷◌, ◌++◌, String, str_eq,
  eq_iff, any, select, Bool-cases, if◌then◌else◌, ◌≡◌, refl, sym, ◌∙◌, ap,
}
use evoblue_video_mcp.Config.Json.{
  Json, null, object, Fields, empty, field, has, get, put, remove, keys, json_eq, is_within,
  holds_of, accepts_pairs, accepts_fields,
}
use evoblue_video_mcp.Config.Merge.{is_blank, prune, registry_keys, is_intact}
use evoblue_video_mcp.Config.Dicts.{
  get-put, remove-put, put-put, remove_absent, absent, missing, has-remove, keys-put,
  keys-put_present, keys-remove, any-keys, put-accepts, remove-accepts, get-accepts,
}
use evoblue_video_mcp.Config.Equality.{json_eq_self, names_eq_self}

-- the registry of a document: what it maps mcpServers to, or nothing if it has no such key
abbrev pub HasServers : Fields → Fields → Type 0
HasServers doc servers =
    ((get "mcpServers" doc ≡ none) × (servers ≡ empty))
    ⊎ (get "mcpServers" doc ≡ some (object servers))

-- what is left of a document with those servers without the entry
abbrev pub rest_of : Fields → Fields → Fields
rest_of doc others =
    if is_blank others then remove "mcpServers" doc else put "mcpServers" (object others) doc

-- a document in which the registry is written
abbrev pub with_servers : Fields → Fields → Fields
with_servers doc servers = put "mcpServers" (object servers) doc

pub prune-with_servers :
    (doc servers : Fields) (key : String)
    → prune (with_servers doc servers) key ≡ rest_of doc (remove key servers)
unfolding prune
prune-with_servers doc servers key =
    rw (get-put "mcpServers" (object servers) doc, prune)
      (elim (Bool-cases (is_blank (remove key servers))) [
        | inl e ↦ rw e (remove-put "mcpServers" (object servers) doc)
        | inr e ↦ rw e (put-put "mcpServers" (object (remove key servers)) (object servers) doc)
      ])

pub prune-HasServers :
    (doc servers : Fields) (key : String)
    → HasServers doc servers
    → prune doc key ≡ rest_of doc (remove key servers)
unfolding prune remove
prune-HasServers doc servers key (inl (e, f)) =
    rw (e, f, prune) (sym (remove_absent "mcpServers" doc (absent "mcpServers" doc e)))
prune-HasServers doc servers key (inr e) = rw (e, prune) refl

pub keys-with_servers :
    (doc servers : Fields) → registry_keys (with_servers doc servers) ≡ keys servers
unfolding registry_keys
keys-with_servers doc servers = rw (get-put "mcpServers" (object servers) doc, registry_keys) refl

pub keys-HasServers :
    (doc servers : Fields) → HasServers doc servers → registry_keys doc ≡ keys servers
unfolding registry_keys keys
keys-HasServers doc servers (inl (e, f)) = rw (e, f, registry_keys) refl
keys-HasServers doc servers (inr e) = rw (e, registry_keys) refl

rest_of-accepts :
    (doc others : Fields)
    → accepts_fields doc ≡ true
    → accepts_fields others ≡ true
    → accepts_fields (rest_of doc others) ≡ true
rest_of-accepts doc others h g = elim (Bool-cases (is_blank others)) [
  | inl e ↦ rw e (remove-accepts "mcpServers" doc h)
  | inr e ↦ rw e (put-accepts "mcpServers" (object others) doc (unfold accepts_pairs in g) h)
]

pub servers-accepts :
    (doc servers : Fields)
    → HasServers doc servers
    → accepts_fields doc ≡ true
    → accepts_fields servers ≡ true
unfolding accepts_pairs
servers-accepts doc servers (inl (e, f)) h = rw f refl
servers-accepts doc servers (inr e) h = get-accepts "mcpServers" (object servers) doc h e

-- two documents with the same rest, and the order of names that is expected
intact_of :
    (before after rest : Fields) (key : String) (removing : Bool) (names : List String)
    → prune before key ≡ rest
    → prune after key ≡ rest
    → accepts_fields rest ≡ true
    → registry_keys after ≡ names
    → (if removing
        then select (λ name. not (str_eq name key)) (registry_keys before)
        else if any (λ name. str_eq name key) (registry_keys before)
        then registry_keys before
        else registry_keys before ++ key ∷ [])
      ≡ names
    → is_intact before after key removing ≡ true
unfolding is_intact
intact_of before after rest key removing names e f h g i =
    rw
      (
        e,
        f,
        json_eq_self (object rest) (unfold accepts_pairs in h),
        g,
        i,
        names_eq_self names,
        is_intact,
      )
      refl

pub merge-is_intact :
    (doc servers : Fields) (key : String) (entry : Json)
    → HasServers doc servers
    → accepts_fields doc ≡ true
    → is_intact doc (with_servers doc (put key entry servers)) key false ≡ true
merge-is_intact doc servers key entry s h =
    intact_of doc (with_servers doc (put key entry servers)) (rest_of doc (remove key servers)) key
      false (keys (put key entry servers)) (prune-HasServers doc servers key s)
      (prune-with_servers doc (put key entry servers) key
        ∙ ap (rest_of doc) (remove-put key entry servers))
      (rest_of-accepts doc (remove key servers) h
        (remove-accepts key servers (servers-accepts doc servers s h)))
      (keys-with_servers doc (put key entry servers))
      (rw (keys-HasServers doc servers s, any-keys key servers)
        (elim (Bool-cases (has key servers)) [
          | inl e ↦ rw e (sym (keys-put_present key entry servers e))
          | inr e ↦ rw e (sym (keys-put key entry servers e))
        ]))

pub removal-is_intact :
    (doc servers : Fields) (key : String)
    → accepts_fields doc ≡ true
    → accepts_fields servers ≡ true
    → is_intact (with_servers doc servers) (with_servers doc (remove key servers)) key true ≡ true
removal-is_intact doc servers key h g =
    intact_of (with_servers doc servers) (with_servers doc (remove key servers))
      (rest_of doc (remove key servers)) key true (keys (remove key servers))
      (prune-with_servers doc servers key)
      (prune-with_servers doc (remove key servers) key
        ∙ ap (rest_of doc) (remove_absent key (remove key servers) (has-remove key servers)))
      (rest_of-accepts doc (remove key servers) h (remove-accepts key servers g))
      (keys-with_servers doc (remove key servers))
      (rw (keys-with_servers doc servers) (sym (keys-remove key servers)))

-- a key that is missing on the right makes a difference
pub within_missing :
    (k : String) (a b : Fields) → has k a ≡ true → get k b ≡ none → is_within a b ≡ false
unfolding is_within has
within_missing k empty b h e = cc
within_missing k (field j v a) b h e = elim (Bool-cases (str_eq j k)) [
  | inl f ↦
      let g : get j b ≡ none = ap (λ s. get s b) ((eq_iff j k).0 f) ∙ e in
      ap (λ o. holds_of (json_eq v) o && is_within a b) g
  | inr f ↦
      let c : has k a ≡ true = rw (f, has) at h in
      ap (λ t. holds_of (json_eq v) (get j b) && t) (within_missing k a b c e) ∙ never _
]
  where
    never : (t : Bool) → (t && false) ≡ false
    never true = refl
    never false = refl

present : (k : String) (v : Json) (d : Fields) → get k d ≡ some v → has k d ≡ true
present k v d h = elim (Bool-cases (has k d)) [
  | inl e ↦ e
  | inr e ↦ let n = missing k d e in cc (n, h)
]

-- a registry that is null counts as a change when it is replaced
pub null-is_intact :
    (doc : Fields) (key : String) (entry : Json)
    → get "mcpServers" doc ≡ some null
    → is_intact doc (with_servers doc (put key entry empty)) key false ≡ false
unfolding is_intact json_eq
null-is_intact doc key entry h =
    let before : prune doc key ≡ doc = unfold prune in rw (h, prune) refl in
    let nothing : remove key (put key entry empty) ≡ empty =
      remove-put key entry empty ∙ (unfold remove in refl) in
    let after : prune (with_servers doc (put key entry empty)) key ≡ remove "mcpServers" doc =
      prune-with_servers doc (put key entry empty) key ∙ ap (rest_of doc) nothing in
    let differs =
      within_missing "mcpServers" doc (remove "mcpServers" doc) (present "mcpServers" null doc h)
        (missing "mcpServers" (remove "mcpServers" doc) (has-remove "mcpServers" doc)) in
    rw (before, after, is_intact) (rw differs (never _ _))
  where
    never : (a b : Bool) → ((a && false) && b) ≡ false
    never true b = refl
    never false b = refl
