-- ===== src/Config/Printed.antt =====
-- What the proofs after a write read back: the documents that json.dumps prints.
use mathlib.Core.Path.{subst}
use evoblue_video_mcp.Prelude.{
  Bool, true, false, inl, inr, Option, none, some, List, [], ◌∷◌, String, Bool-cases, ◌≡◌, refl, ap,
}
use evoblue_video_mcp.Transcript.Chunker.{Text, strip, is_empty}
use evoblue_video_mcp.Config.Json.{
  Json, null, boolean, number, text, array, object, Fields, empty, has, put, accepts_pairs,
  accepts_items, accepts_fields,
}
use evoblue_video_mcp.Config.Merge.{
  Result, done, refused, EntryPayload, texts, put_pairs, payload_entry, starts_with_bom, parse,
}
use evoblue_video_mcp.Config.Dicts.{put-accepts}

-- What the code relies on in Python's json module for a document that it prints: the text is read
-- back as the document, and is neither blank nor marked by a BOM.
pub record IsPrinted (loads : Text → Option Json) (dumps : Json → Text) (d : Fields) : Type 0 where
  pub reads : loads (dumps (object d)) ≡ some (object d)
  pub no_bom : starts_with_bom (dumps (object d)) ≡ false
  pub not_blank : is_empty (strip (dumps (object d))) ≡ false

texts-accepts : (ts : List String) → accepts_items (texts ts) ≡ true
unfolding accepts_pairs
texts-accepts [] = refl
texts-accepts (t ∷ ts) = texts-accepts ts

pairs-accepts :
    (ps : List (String × String)) (d : Fields)
    → accepts_fields d ≡ true
    → accepts_fields (put_pairs ps d) ≡ true
unfolding put_pairs
pairs-accepts [] d h = h
pairs-accepts ((k, v) ∷ ps) d h =
    pairs-accepts ps (put k (text v) d) (put-accepts k (text v) d (unfold accepts_pairs in refl) h)

pub payload_entry-accepts : (p : EntryPayload) → accepts_fields (payload_entry p) ≡ true
unfolding payload_entry accepts_pairs has
payload_entry-accepts p = go p.env
  where
    go :
        (env : List (String × String))
        → accepts_fields (payload_entry (record { command = p.command; args = p.args; env = env }))
          ≡ true
    go [] = rw (texts-accepts p.args) refl
    go (pair ∷ rest) =
        rw (texts-accepts p.args, pairs-accepts (pair ∷ rest) empty (unfold accepts_pairs in refl))
          refl

module _ (loads : Text → Option Json) (dumps : Json → Text)
    (sorted : List String → List String) where
  pub parse-accepts :
      (original : Text) (doc : Fields)
      → parse loads dumps sorted original ≡ done doc
      → accepts_fields doc ≡ true
  unfolding parse accepts_pairs
  parse-accepts original doc h = elim (Bool-cases (starts_with_bom original)) [
    | inl e ↦ cc (ap is_done (rw (e, parse) at h))
    | inr e ↦ elim (Bool-cases (is_empty (strip original))) [
      | inl f ↦ cc (ap is_done (rw (e, f, parse) at h))
      | inr f ↦ loaded e f (loads original) refl
    ]
  ]
    where
      is_done : Result Fields → Bool
      is_done (done d) = true
      is_done (refused x) = false

      done_eq : (a b : Fields) → done a ≡ done b → a ≡ b
      done_eq a b q = cc

      loaded :
          starts_with_bom original ≡ false
          → is_empty (strip original) ≡ false
          → (o : Option Json) → loads original ≡ o
          → accepts_fields doc ≡ true
      loaded e f none g = cc (ap is_done (rw (e, f, g, parse) at h))
      loaded e f (some null) g = cc (ap is_done (rw (e, f, g, parse) at h))
      loaded e f (some (boolean b)) g = cc (ap is_done (rw (e, f, g, parse) at h))
      loaded e f (some (number n)) g = cc (ap is_done (rw (e, f, g, parse) at h))
      loaded e f (some (text t)) g = cc (ap is_done (rw (e, f, g, parse) at h))
      loaded e f (some (array a)) g = cc (ap is_done (rw (e, f, g, parse) at h))
      loaded e f (some (object d)) g = elim (Bool-cases (accepts_fields d)) [
        | inr i ↦ cc (ap is_done (rw (e, f, g, i, parse) at h))
        | inl i ↦
            let k : done d ≡ done doc = rw (e, f, g, i, parse) at h in
            subst (λ x. accepts_fields x ≡ true) (done_eq d doc k) i
      ]

  pub parse-dumps :
      (d : Fields)
      → IsPrinted loads dumps d
      → accepts_fields d ≡ true
      → parse loads dumps sorted (dumps (object d)) ≡ done d
  unfolding parse accepts_pairs
  parse-dumps d printed h = rw (printed.no_bom, printed.not_blank, printed.reads, parse) (rw h refl)
