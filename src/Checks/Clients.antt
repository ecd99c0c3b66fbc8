-- ===== src/Checks/Clients.antt =====
-- The entry of the engine in small client configurations.
use evoblue_video_mcp.Prelude.{
  ◌==◌, true, false, inr, Option, none, some, List, [], ◌∷◌, String, if◌then◌else◌, ◌≡◌, refl,
}
use evoblue_video_mcp.Transcript.Chunker.{Text, strip, left_strip, right_strip, is_space}
use evoblue_video_mcp.Config.Json.{
  Json, null, text, object, Fields, empty, field, has, get, put, json_eq, accepts_pairs,
}
use evoblue_video_mcp.Config.Merge.{
  config_write, done, refused, EntryPayload, payload_entry, parse, merge_json,
}
use evoblue_video_mcp.Config.Intact.{with_servers}
use evoblue_video_mcp.Config.Printed.{IsPrinted}
use evoblue_video_mcp.Config.Entries.{merge_then_remove, null_registry}

abbrev payload : EntryPayload
payload = record { command = "evoblue"; args = "mcp" ∷ []; env = [] }

-- the servers of someone else
abbrev others : Fields
others = field "other" (object (field "url" (text "http://x") empty)) empty

abbrev doc : Fields
doc = field "theme" (text "dark") (field "mcpServers" (object others) empty)

abbrev after : Fields
after = with_servers doc (put "evoblue" (object (payload_entry payload)) others)

abbrev null_doc : Fields
null_doc = field "mcpServers" null empty

abbrev null_after : Fields
null_after = with_servers null_doc (put "evoblue" (object (payload_entry payload)) empty)

-- a printer that numbers the documents above, and a parser for its texts
abbrev dumps : Json → Text
dumps d =
    if json_eq d (object after)
    then 65 ∷ []
    else if json_eq d (object null_after)
    then 66 ∷ []
    else 67 ∷ []

abbrev loads : Text → Option Json
loads [] = none
loads (c ∷ cs) =
    if c == 65
    then some (object after)
    else if c == 66
    then some (object null_after)
    else if c == 67
    then some (object (with_servers doc others))
    else some (object null_doc)

abbrev sorted : List String → List String
sorted names = names

after-IsPrinted : IsPrinted loads dumps after
unfolding json_eq put get payload_entry strip left_strip right_strip is_space
after-IsPrinted = record { reads = refl; no_bom = refl; not_blank = refl }

others-IsPrinted : IsPrinted loads dumps (with_servers doc others)
unfolding json_eq put get payload_entry strip left_strip right_strip is_space
others-IsPrinted = record { reads = refl; no_bom = refl; not_blank = refl }

null_after-IsPrinted : IsPrinted loads dumps null_after
unfolding json_eq put get payload_entry strip left_strip right_strip is_space
null_after-IsPrinted = record { reads = refl; no_bom = refl; not_blank = refl }

reads_doc : parse loads dumps sorted (67 ∷ []) ≡ done doc
unfolding parse json_eq put get has payload_entry strip left_strip right_strip is_space
    accepts_pairs
reads_doc = refl

reads_null : parse loads dumps sorted (68 ∷ []) ≡ done null_doc
unfolding parse json_eq put get has payload_entry strip left_strip right_strip is_space
    accepts_pairs
reads_null = refl

absent_entry : has "evoblue" others ≡ false
unfolding has
absent_entry = refl

found_servers : get "mcpServers" doc ≡ some (object others)
unfolding get
found_servers = refl

found_null : get "mcpServers" null_doc ≡ some null
unfolding get
found_null = refl

merge_then_remove_example :
    merge_json loads dumps sorted (67 ∷ []) "evoblue" payload false
    ≡ done (record { text = dumps (object after); changed = true })
merge_then_remove_example =
    (merge_then_remove loads dumps sorted (67 ∷ []) doc others "evoblue" payload false reads_doc
      (inr found_servers) absent_entry after-IsPrinted others-IsPrinted).0

null_registry_example :
    merge_json loads dumps sorted (68 ∷ []) "evoblue" payload true ≡ refused config_write
null_registry_example =
    null_registry loads dumps sorted (68 ∷ []) null_doc "evoblue" payload true reads_null found_null
      null_after-IsPrinted
