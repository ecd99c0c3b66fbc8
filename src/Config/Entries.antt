-- ===== src/Config/Entries.antt =====
-- The entry that the engine manages comes and goes, and the rest of the file stays.
use mathlib.Core.Path.{subst}
use evoblue_video_mcp.Prelude.{
  Bool, true, false, ◌&&◌, ◌||◌, inl, inr, Option, none, some, List, String, ◌≡◌, refl, ◌∙◌, ap,
}
use evoblue_video_mcp.Transcript.Chunker.{Text}
use evoblue_video_mcp.Config.Json.{
  Json, null, object, Fields, empty, has, get, put, remove, json_eq, accepts_pairs, accepts_fields,
}
use evoblue_video_mcp.Config.Merge.{
  config_write, done, refused, EntryPayload, payload_entry, effective_entry, is_intact, parse,
  prove_merge, prove_removal, write_entry, merge_servers, merge_json, remove_entry_json,
}
use evoblue_video_mcp.Config.Dicts.{
  get-put, has-put, remove-put, put-put, remove_absent, missing, put-accepts,
}
use evoblue_video_mcp.Config.Equality.{json_eq_self}
use evoblue_video_mcp.Config.Intact.{
  HasServers, with_servers, merge-is_intact, removal-is_intact, null-is_intact, servers-accepts,
}
use evoblue_video_mcp.Config.Printed.{IsPrinted, payload_entry-accepts, parse-accepts, parse-dumps}

module _ (loads : Text → Option Json) (dumps : Json → Text)
    (sorted : List String → List String) where
  -- the write passes its proof
  write_entry_lem :
      (original : Text) (doc servers : Fields) (key : String) (expected : Fields)
      → parse loads dumps sorted original ≡ done doc
      → HasServers doc servers
      → accepts_fields doc ≡ true
      → accepts_fields expected ≡ true
      → IsPrinted loads dumps (with_servers doc (put key (object expected) servers))
      → write_entry loads dumps sorted original doc servers key expected
        ≡ done (record {
          text = dumps (object (with_servers doc (put key (object expected) servers)));
          changed = true;
        })
  unfolding write_entry prove_merge
  write_entry_lem original doc servers key expected read s h g printed =
      let entries = put key (object expected) servers in
      let after = with_servers doc entries in
      let same : accepts_pairs (object expected) ≡ true = unfold accepts_pairs in g in
      let accepted : accepts_fields after ≡ true =
        put-accepts "mcpServers" (object entries) doc
          (unfold accepts_pairs in
            put-accepts key (object expected) servers same (servers-accepts doc servers s h))
          h in
      rw
        (
          read,
          parse-dumps loads dumps sorted after printed accepted,
          get-put "mcpServers" (object entries) doc,
          get-put key (object expected) servers,
          json_eq_self (object expected) same,
          merge-is_intact doc servers key (object expected) s h,
          write_entry,
          prove_merge,
        )
        refl

  -- a registry without the entry gets it
  merges :
      (original : Text) (doc servers : Fields) (key : String) (payload : EntryPayload)
      (force : Bool)
      → parse loads dumps sorted original ≡ done doc
      → HasServers doc servers
      → get key servers ≡ none
      → merge_json loads dumps sorted original key payload force
        ≡ write_entry loads dumps sorted original doc servers key (payload_entry payload)
  unfolding merge_json merge_servers
  merges original doc servers key payload force read (inl (e, f)) g =
      rw (read, e, f, merge_json, merge_servers) (unfold get in refl)
  merges original doc servers key payload force read (inr e) g =
      rw (read, e, g, merge_json, merge_servers) refl

  -- a document with the entry is left alone
  merges_nothing :
      (doc servers : Fields) (key : String) (payload : EntryPayload) (force : Bool)
      → let after = with_servers doc (put key (object (payload_entry payload)) servers) in
        IsPrinted loads dumps after
        → accepts_fields after ≡ true
        → merge_json loads dumps sorted (dumps (object after)) key payload force
          ≡ done (record { text = dumps (object after); changed = false })
  unfolding merge_json merge_servers
  merges_nothing doc servers key payload force printed accepted =
      let expected = payload_entry payload in
      let entries = put key (object expected) servers in
      let equal : json_eq (object expected) (object expected) ≡ true =
        json_eq_self (object expected) (unfold accepts_pairs in payload_entry-accepts payload) in
      rw
        (
          parse-dumps loads dumps sorted (with_servers doc entries) printed accepted,
          get-put "mcpServers" (object entries) doc,
          get-put key (object expected) servers,
          equal,
          or_true (json_eq (object (effective_entry expected)) (object expected)),
          merge_json,
          merge_servers,
        )
        refl
    where
      or_true : (b : Bool) → (b || true) ≡ true
      or_true true = refl
      or_true false = refl

  -- a removal passes its proof
  removal_proved :
      (after doc servers : Fields) (key : String)
      → parse loads dumps sorted (dumps (object after)) ≡ done after
      → parse loads dumps sorted (dumps (object (with_servers doc servers)))
        ≡ done (with_servers doc servers)
      → has key servers ≡ false
      → is_intact after (with_servers doc servers) key true ≡ true
      → prove_removal loads dumps sorted
          (dumps (object after))
          (dumps (object (with_servers doc servers)))
          key
        ≡ done (record { text = dumps (object (with_servers doc servers)); changed = true })
  unfolding prove_removal
  removal_proved after doc servers key first second new intact =
      rw (first, second, get-put "mcpServers" (object servers) doc, new, intact, prove_removal) refl

  -- a document with the entry loses it
  removes :
      (doc servers : Fields) (key : String) (entry : Json)
      → has key servers ≡ false
      → accepts_fields doc ≡ true
      → accepts_fields (put key entry servers) ≡ true
      → accepts_fields servers ≡ true
      → IsPrinted loads dumps (with_servers doc (put key entry servers))
      → IsPrinted loads dumps (with_servers doc servers)
      → remove_entry_json loads dumps sorted
          (dumps (object (with_servers doc (put key entry servers))))
          key
        ≡ done (record { text = dumps (object (with_servers doc servers)); changed = true })
  unfolding remove_entry_json
  removes doc servers key entry new h g i printed reprinted =
      let entries = put key entry servers in
      let after = with_servers doc entries in
      let accepts = λ (d : Fields) (a : accepts_fields d ≡ true).
        put-accepts "mcpServers" (object d) doc (unfold accepts_pairs in a) h in
      let gone : remove key entries ≡ servers =
        remove-put key entry servers ∙ remove_absent key servers new in
      let intact : is_intact after (with_servers doc servers) key true ≡ true =
        subst (λ d. is_intact after (with_servers doc d) key true ≡ true) gone
          (removal-is_intact doc entries key h g) in
      rw
        (
          parse-dumps loads dumps sorted after printed (accepts entries g),
          get-put "mcpServers" (object entries) doc,
          has-put key entry servers,
          gone,
          remove_entry_json,
        )
        (ap (λ d. prove_removal loads dumps sorted (dumps (object after)) (dumps (object d)) key)
            (put-put "mcpServers" (object servers) (object entries) doc)
          ∙ removal_proved after doc servers key
              (parse-dumps loads dumps sorted after printed (accepts entries g))
              (parse-dumps loads dumps sorted (with_servers doc servers) reprinted
                (accepts servers i))
              new intact)

  -- For a JSON file that passes the gates, whose registry is missing or an object without the
  -- entry, and for the documents that are printed being read back by json: merge_json writes the
  -- document with the entry added to the registry and every other key and entry as before, and its
  -- proof passes; merging again changes nothing; remove_entry_json then takes the entry out again,
  -- and the text that it writes reads as the document with the registry as it was.
  pub merge_then_remove :
      (original : Text) (doc servers : Fields) (key : String) (payload : EntryPayload)
      (force : Bool)
      → parse loads dumps sorted original ≡ done doc
      → HasServers doc servers
      → has key servers ≡ false
      → IsPrinted loads dumps (with_servers doc (put key (object (payload_entry payload)) servers))
      → IsPrinted loads dumps (with_servers doc servers)
      → let after = with_servers doc (put key (object (payload_entry payload)) servers) in
        let merged = dumps (object after) in
        let removed = dumps (object (with_servers doc servers)) in
        (merge_json loads dumps sorted original key payload force
          ≡ done (record { text = merged; changed = true }))
        × (parse loads dumps sorted merged ≡ done after)
        × (merge_json loads dumps sorted merged key payload force
            ≡ done (record { text = merged; changed = false }))
        × (remove_entry_json loads dumps sorted merged key
            ≡ done (record { text = removed; changed = true }))
        × (parse loads dumps sorted removed ≡ done (with_servers doc servers))
  merge_then_remove original doc servers key payload force read s new printed reprinted =
      let expected = payload_entry payload in
      let h = parse-accepts loads dumps sorted original doc read in
      let g = payload_entry-accepts payload in
      let i = servers-accepts doc servers s h in
      let entries_accepted : accepts_fields (put key (object expected) servers) ≡ true =
        put-accepts key (object expected) servers (unfold accepts_pairs in g) i in
      let accepted = λ (d : Fields) (a : accepts_fields d ≡ true).
        put-accepts "mcpServers" (object d) doc (unfold accepts_pairs in a) h in
      let after_accepted = accepted (put key (object expected) servers) entries_accepted in
      (
        merges original doc servers key payload force read s (missing key servers new)
            ∙ write_entry_lem original doc servers key expected read s h g printed,
        parse-dumps loads dumps sorted (with_servers doc (put key (object expected) servers))
            printed after_accepted,
        merges_nothing doc servers key payload force printed after_accepted,
        removes doc servers key (object expected) new h entries_accepted i printed reprinted,
        parse-dumps loads dumps sorted (with_servers doc servers) reprinted (accepted servers i),
      )

  -- For a JSON file that passes the gates and maps mcpServers to null, merge_json always raises
  -- ConfigWriteError, with or without force, since its proof takes the replaced null for a change
  -- of the user.
  pub null_registry :
      (original : Text) (doc : Fields) (key : String) (payload : EntryPayload) (force : Bool)
      → parse loads dumps sorted original ≡ done doc
      → get "mcpServers" doc ≡ some null
      → IsPrinted loads dumps (with_servers doc (put key (object (payload_entry payload)) empty))
      → merge_json loads dumps sorted original key payload force ≡ refused config_write
  unfolding merge_json merge_servers write_entry prove_merge
  null_registry original doc key payload force read h printed =
      let expected = payload_entry payload in
      let entries = put key (object expected) empty in
      let after = with_servers doc entries in
      let accepted : accepts_fields after ≡ true =
        put-accepts "mcpServers" (object entries) doc
          (unfold accepts_pairs in
            put-accepts key (object expected) empty
              (unfold accepts_pairs in payload_entry-accepts payload)
              (unfold accepts_pairs in refl))
          (parse-accepts loads dumps sorted original doc read) in
      rw (read, h, merge_json, merge_servers)
        (unfold get in
          rw
            (
              read,
              parse-dumps loads dumps sorted after printed accepted,
              get-put "mcpServers" (object entries) doc,
              get-put key (object expected) empty,
              both_false (json_eq (object expected) (object expected))
                  (null-is_intact doc key (object expected) h),
              write_entry,
              prove_merge,
            )
            refl)
    where
      both_false : (a : Bool) {b : Bool} → b ≡ false → (a && b) ≡ false
      both_false true e = e
      both_false false e = refl
