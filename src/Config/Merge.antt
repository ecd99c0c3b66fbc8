-- ===== src/Config/Merge.antt =====
-- application/client_config/merge_json.py. `json.loads`, `json.dumps` with the indent and the final
-- newline, and `sorted` on strings are arguments.
use evoblue_video_mcp.Prelude.{
  ◌==◌, Bool, true, false, ◌&&◌, ◌||◌, not, Option, none, some, List, [], ◌∷◌, ◌++◌, String, str_eq,
  any, select, if◌then◌else◌,
}
use evoblue_video_mcp.Transcript.Chunker.{Text, strip, is_empty}
use evoblue_video_mcp.Config.Json.{
  Json, null, boolean, text, array, object, Jsons, end, item, Fields, empty, field, has, get, put,
  remove, keys, json_eq, accepts_pairs,
}

-- the exceptions of errors.py that this file raises
pub data ConfigError : Type 0 where
  unsupported_config : ConfigError
  entry_conflict : List String → ConfigError
  config_write : ConfigError

pub data Result (A : Type 0) : Type 0 where
  done : A → Result A
  refused : ConfigError → Result A

pub record MergeOutcome : Type 0 where
  pub text : Text
  pub changed : Bool

-- `EntryPayload` of models.py
pub record EntryPayload : Type 0 where
  pub command : String
  pub args : List String
  pub env : List (String × String)

abbrev pub texts : List String → Jsons
texts [] = end
texts (s ∷ rest) = item (text s) (texts rest)

-- `dict(pairs)`, added to a dictionary
unfoldable pub put_pairs : List (String × String) → Fields → Fields
unfolding put
put_pairs [] d = d
put_pairs ((k, v) ∷ rest) d = put_pairs rest (put k (text v) d)

unfoldable pub payload_entry : EntryPayload → Fields
unfolding put_pairs
payload_entry p = elim p.env [
  | [] ↦ field "command" (text p.command) (field "args" (array (texts p.args)) empty)
  | pair ∷ rest ↦ field "command" (text p.command) (
      field "args" (array (texts p.args))
        (field "env" (object (put_pairs (pair ∷ rest) empty)) empty))
]

abbrev pub is_false : Json → Bool
is_false (boolean b) = not b
is_false _ = false

-- `_effective_entry`
unfoldable pub effective_entry : Fields → Fields
effective_entry empty = empty
effective_entry (field k v rest) =
    let later = effective_entry rest in
    if str_eq k "disabled" && is_false v then later else field k v later

-- `k not in MANAGED_KEYS`
abbrev pub is_unmanaged : String → Bool
is_unmanaged k = not (str_eq k "command" || (str_eq k "args" || str_eq k "env"))

-- `isinstance(servers, dict)`, for what `get` gave
abbrev pub as_object : Option Json → Option Fields
as_object (some (object d)) = some d
as_object _ = none

abbrev pub is_blank : Fields → Bool
is_blank empty = true
is_blank (field k v rest) = false

-- `_prune`; values do not change, so a clone is the value
unfoldable pub prune : Fields → String → Fields
unfolding get remove put
prune doc key = elim (as_object (get "mcpServers" doc)) [
  | none ↦ doc
  | some servers ↦
      if is_blank (remove key servers)
      then remove "mcpServers" doc
      else put "mcpServers" (object (remove key servers)) doc
]

-- the names of the registry, none if it is no object
unfoldable pub registry_keys : Fields → List String
unfolding get keys
registry_keys doc = elim (as_object (get "mcpServers" doc)) [
  | none ↦ []
  | some servers ↦ keys servers
]

abbrev pub names_eq : List String → List String → Bool
names_eq [] [] = true
names_eq (a ∷ as_) (b ∷ bs) = str_eq a b && names_eq as_ bs
names_eq _ _ = false

-- `_prove_intact` raises nothing
unfoldable pub is_intact : Fields → Fields → String → Bool → Bool
unfolding prune registry_keys json_eq
is_intact before after key removing =
    json_eq (object (prune before key)) (object (prune after key))
    && names_eq (registry_keys after) (
        if removing
        then select (λ name. not (str_eq name key)) (registry_keys before)
        else if any (λ name. str_eq name key) (registry_keys before)
        then registry_keys before
        else registry_keys before ++ key ∷ [])

abbrev pub starts_with_bom : Text → Bool
starts_with_bom [] = false
starts_with_bom (c ∷ cs) = c == 65279

module _ (loads : Text → Option Json) (dumps : Json → Text)
    (sorted : List String → List String) where
  -- `_parse`
  unfoldable pub parse : Text → Result Fields
  unfolding strip accepts_pairs
  parse original =
      if starts_with_bom original
      then refused unsupported_config
      else if is_empty (strip original)
      then refused unsupported_config
      else elim (loads original) [
        | some (object doc) ↦
            if accepts_pairs (object doc) then done doc else refused unsupported_config
        | _ ↦ refused unsupported_config
      ]

  -- `read_entry`
  unfoldable pub read_entry : Text → String → Result (Option Fields)
  unfolding parse get effective_entry
  read_entry original key = elim (parse original) [
    | refused e ↦ refused e
    | done doc ↦ elim (as_object (get "mcpServers" doc)) [
      | none ↦ done none
      | some servers ↦ elim (as_object (get key servers)) [
        | none ↦ done none
        | some entry ↦ done (some (effective_entry entry))
      ]
    ]
  ]

  -- `prove_merge`, before what is returned after it
  unfoldable pub prove_merge : Text → Text → String → Fields → Result MergeOutcome
  unfolding parse get json_eq is_intact
  prove_merge original_text merged_text key expected = elim (parse original_text) [
    | refused e ↦ refused e
    | done before ↦ elim (parse merged_text) [
      | refused e ↦ refused e
      | done after ↦ elim (as_object (get "mcpServers" after)) [
        | none ↦ refused config_write
        | some servers ↦ elim (get key servers) [
          | none ↦ refused config_write
          | some entry ↦
              if json_eq entry (object expected) && is_intact before after key false
              then done (record { text = merged_text; changed = true })
              else refused config_write
        ]
      ]
    ]
  ]

  -- `prove_removal`
  unfoldable pub prove_removal : Text → Text → String → Result MergeOutcome
  unfolding parse get has is_intact
  prove_removal original_text merged_text key = elim (parse original_text) [
    | refused e ↦ refused e
    | done before ↦ elim (parse merged_text) [
      | refused e ↦ refused e
      | done after ↦
          if (elim (as_object (get "mcpServers" after)) [
            | none ↦ false
            | some servers ↦ has key servers
          ])
          then refused config_write
          else if is_intact before after key true
          then done (record { text = merged_text; changed = true })
          else refused config_write
    ]
  ]

  -- `servers[key] = expected`, and the proof
  unfoldable pub write_entry : Text → Fields → Fields → String → Fields → Result MergeOutcome
  unfolding put prove_merge
  write_entry original doc servers key expected =
      prove_merge original
        (dumps (object (put "mcpServers" (object (put key (object expected) servers)) doc))) key
        expected

  -- `merge_json` for a registry that is an object
  unfoldable pub merge_servers :
      Text → Fields → Fields → String → Fields → Bool → Result MergeOutcome
  unfolding get json_eq effective_entry keys write_entry
  merge_servers original doc servers key expected force = elim (get key servers) [
    | none ↦ write_entry original doc servers key expected
    | some null ↦ write_entry original doc servers key expected
    | some (object current) ↦
        if json_eq (object (effective_entry current)) (object expected)
          || json_eq (object current) (object expected)
        then done (record { text = original; changed = false })
        else elim (sorted (select is_unmanaged (keys (effective_entry current)))) [
          | [] ↦ write_entry original doc servers key expected
          | k ∷ ks ↦
              if force
              then write_entry original doc servers key expected
              else refused (entry_conflict (k ∷ ks))
        ]
    | some _ ↦ refused unsupported_config
  ]

  unfoldable pub merge_json : Text → String → EntryPayload → Bool → Result MergeOutcome
  unfolding parse get merge_servers payload_entry
  merge_json original key payload force = elim (parse original) [
    | refused e ↦ refused e
    | done doc ↦ elim (get "mcpServers" doc) [
      | none ↦ merge_servers original doc empty key (payload_entry payload) force
      | some null ↦ merge_servers original doc empty key (payload_entry payload) force
      | some (object servers) ↦ merge_servers original doc servers key (payload_entry payload) force
      | some _ ↦ refused unsupported_config
    ]
  ]

  unfoldable pub remove_entry_json : Text → String → Result MergeOutcome
  unfolding parse get has remove put prove_removal
  remove_entry_json original key = elim (parse original) [
    | refused e ↦ refused e
    | done doc ↦ elim (as_object (get "mcpServers" doc)) [
      | none ↦ done (record { text = original; changed = false })
      | some servers ↦
          if has key servers
          then prove_removal original
              (dumps (object (put "mcpServers" (object (remove key servers)) doc))) key
          else done (record { text = original; changed = false })
    ]
  ]
