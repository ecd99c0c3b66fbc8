-- ===== src/Transcript/Chunker.antt =====
-- transcript/chunker.py. A text is the list of its code points, and `strip` and `rfind` are Python's.
use evoblue_video_mcp.Prelude.{
  ℕ, zero, suc, ◌==◌, Bool, true, false, ◌&&◌, ◌||◌, Option, none, some, List, [], ◌∷◌, ◌++◌, ltb,
  leb, length, take, drop, if◌then◌else◌, ◌≡◌, refl,
}
use evoblue_video_mcp.Outcome.{Outcome, ok, err, value_error}

abbrev pub Text : Type 0
Text = List ℕ

abbrev between : ℕ → ℕ → ℕ → Bool
between a b c = leb a c && leb c b

-- `str.isspace` of one code point
unfoldable pub is_space : ℕ → Bool
is_space c =
    between 9 13 c
    || between 28 32 c
    || c == 133
    || c == 160
    || c == 5760
    || between 8192 8202 c
    || c == 8232
    || c == 8233
    || c == 8239
    || c == 8287
    || c == 12288

unfoldable pub left_strip : Text → Text
unfolding is_space
left_strip [] = []
left_strip (c ∷ cs) = let rest = left_strip cs in if is_space c then rest else c ∷ cs

abbrev pub is_empty : Text → Bool
is_empty [] = true
is_empty (c ∷ cs) = false

unfoldable pub right_strip : Text → Text
unfolding is_space
right_strip [] = []
right_strip (c ∷ cs) =
    let rest = right_strip cs in if is_space c && is_empty rest then [] else c ∷ rest

-- `text.strip()`
unfoldable pub strip : Text → Text
unfolding left_strip right_strip
strip t = right_strip (left_strip t)

-- `text.rfind(" ", 0, n)`, where none is Python's -1
unfoldable pub last_space : ℕ → Text → Option ℕ
last_space zero t = none
last_space (suc n) [] = none
last_space (suc n) (c ∷ cs) = elim (last_space n cs) [
  | some i ↦ some (suc i)
  | none ↦ if c == 32 then some 0 else none
]

-- `split_at`, with its `if split_at <= 0: split_at = max_chars`
unfoldable pub split_at : ℕ → Text → ℕ
unfolding last_space
split_at max_chars remaining = elim (last_space max_chars remaining) [
  | none ↦ max_chars
  | some zero ↦ max_chars
  | some (suc i) ↦ suc i
]

-- the loop, on fuel: none if it did not end
unfoldable pub chunk_loop : ℕ → ℕ → Text → Option (List Text)
unfolding split_at strip
chunk_loop zero max_chars remaining = none
chunk_loop (suc fuel) max_chars remaining =
    let rest = chunk_loop fuel max_chars (strip (drop (split_at max_chars remaining) remaining)) in
    if ltb max_chars (length remaining)
    then elim rest [
      | none ↦ none
      | some chunks ↦ some (strip (take (split_at max_chars remaining) remaining) ∷ chunks)
    ]
    else if is_empty remaining
    then some []
    else some (remaining ∷ [])

-- `chunk_text`; `none` would be a loop that does not end
unfoldable pub chunk_text : Text → ℕ → Outcome (Option (List Text))
unfolding chunk_loop strip
chunk_text text max_chars =
    if max_chars == 0
    then err value_error
    else ok (chunk_loop (suc (length (strip text))) max_chars (strip text))

-- `" ".join(texts)`
unfoldable pub join_words : List Text → Text
join_words [] = []
join_words (t ∷ []) = t
join_words (t ∷ u ∷ ts) = t ++ 32 ∷ join_words (u ∷ ts)

-- `chunk_transcript`, on the texts of the segments
unfoldable pub chunk_transcript : List Text → ℕ → Outcome (Option (List Text))
unfolding chunk_text join_words
chunk_transcript segments max_chars = chunk_text (join_words segments) max_chars

-- "ab cd efghij" in chunks of at most 4
chunk_text_test :
    chunk_text (97 ∷ 98 ∷ 32 ∷ 99 ∷ 100 ∷ 32 ∷ 101 ∷ 102 ∷ 103 ∷ 104 ∷ 105 ∷ 106 ∷ []) 4
    ≡ ok (
        some
          ((97 ∷ 98 ∷ []) ∷ (99 ∷ 100 ∷ []) ∷ (101 ∷ 102 ∷ 103 ∷ 104 ∷ []) ∷ (105 ∷ 106 ∷ []) ∷ []))
unfolding chunk_text
chunk_text_test = refl
