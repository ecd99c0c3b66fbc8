-- ===== src/Transcript/Bounds.antt =====
-- What the chunks of a text are: they fit, and they lose nothing but whitespace.
use evoblue_video_mcp.Prelude.{
  ℕ, zero, suc, ◌≤◌, ◌<◌, ◌==◌, true, false, ◌&&◌, not, inl, inr, none, some, List, [], ◌∷◌, ◌++◌,
  ltb, length, take, drop, select, All, &&-eq_true, Bool-cases, Option-cases, if◌then◌else◌, ◌≡◌,
  refl, sym, ◌∙◌, ap, arith,
}
use evoblue_video_mcp.Outcome.{ok}
use evoblue_video_mcp.Transcript.Chunker.{
  Text, is_space, left_strip, right_strip, is_empty, strip, last_space, split_at, chunk_loop,
  chunk_text,
}

-- the code points that are not whitespace
abbrev pub letters : Text → Text
letters t = select (λ c. not (is_space c)) t

abbrev pub join : List Text → Text
join [] = []
join (t ∷ ts) = t ++ join ts

length-left : (t : Text) → length (left_strip t) ≤ length t
unfolding left_strip
length-left [] = omega arith
length-left (c ∷ cs) = elim (Bool-cases (is_space c)) [
  | inl e ↦ let h = length-left cs in rw e (omega arith)
  | inr e ↦ rw e (omega arith)
]

length-right : (t : Text) → length (right_strip t) ≤ length t
unfolding right_strip
length-right [] = omega arith
length-right (c ∷ cs) = elim (Bool-cases (is_space c && is_empty (right_strip cs))) [
  | inl e ↦ rw e (omega arith)
  | inr e ↦ let h = length-right cs in rw e (omega arith)
]

length-strip : (t : Text) → length (strip t) ≤ length t
unfolding strip
length-strip t = let h = length-right (left_strip t) in let k = length-left t in omega arith

letters-left : (t : Text) → letters (left_strip t) ≡ letters t
unfolding left_strip
letters-left [] = refl
letters-left (c ∷ cs) = elim (Bool-cases (is_space c)) [
  | inl e ↦ rw e (letters-left cs)
  | inr e ↦ rw e (rw e refl)
]

no_letters : (t : Text) → is_empty t ≡ true → letters t ≡ []
no_letters [] h = refl
no_letters (c ∷ cs) h = cc

letters-right : (t : Text) → letters (right_strip t) ≡ letters t
unfolding right_strip
letters-right [] = refl
letters-right (c ∷ cs) = elim (Bool-cases (is_space c && is_empty (right_strip cs))) [
  | inl e ↦
      let (space, over) = &&-eq_true (is_space c) (is_empty (right_strip cs)) e in
      rw e (rw space (sym (no_letters (right_strip cs) over) ∙ letters-right cs))
  | inr e ↦ rw e (rw (letters-right cs) refl)
]

letters-strip : (t : Text) → letters (strip t) ≡ letters t
unfolding strip
letters-strip t = letters-right (left_strip t) ∙ letters-left t

letters-append : (s t : Text) → letters (s ++ t) ≡ letters s ++ letters t
letters-append [] t = refl
letters-append (c ∷ cs) t = elim (Bool-cases (is_space c)) [
  | inl e ↦ rw e (letters-append cs t)
  | inr e ↦ rw e (ap (λ u. c ∷ u) (letters-append cs t))
]

take-drop : (n : ℕ) (t : Text) → take n t ++ drop n t ≡ t
take-drop zero t = refl
take-drop (suc n) [] = refl
take-drop (suc n) (c ∷ cs) = ap (λ u. c ∷ u) (take-drop n cs)

length-take : (n : ℕ) (t : Text) → length (take n t) ≤ n
length-take zero t = omega arith
length-take (suc n) [] = omega arith
length-take (suc n) (c ∷ cs) = let h = length-take n cs in omega arith

length-drop : (n : ℕ) (t : Text) → length (drop n t) ≤ length t
length-drop zero t = omega arith
length-drop (suc n) [] = omega arith
length-drop (suc n) (c ∷ cs) = let h = length-drop n cs in omega arith

-- a split that takes something leaves less
drop_shrinks : (n : ℕ) (t : Text) → 1 ≤ n → 1 ≤ length t → length (drop n t) < length t
drop_shrinks zero t h k = omega arith
drop_shrinks (suc n) [] h k = omega arith
drop_shrinks (suc n) (c ∷ cs) h k = let shorter = length-drop n cs in omega arith

last_space_before : (n : ℕ) (t : Text) (i : ℕ) → last_space n t ≡ some i → i < n
unfolding last_space
last_space_before zero t i e = cc
last_space_before (suc n) [] i e = cc
last_space_before (suc n) (c ∷ cs) i e = elim (Option-cases (last_space n cs)) [
  | inr (j, found) ↦
      let here : some (suc j) ≡ some i = rw found at e in
      let h = last_space_before n cs j found in let same : suc j ≡ i = cc here in omega arith
  | inl absent ↦ elim (Bool-cases (c == 32)) [
    | inl space ↦
        let here : some 0 ≡ some i = rw (absent, space) at e in
        let same : 0 ≡ i = cc here in omega arith
    | inr other ↦ let here : none ≡ some i = rw (absent, other) at e in cc here
  ]
]

split_at-bounds :
    (max_chars : ℕ) (t : Text)
    → 1 ≤ max_chars
    → (1 ≤ split_at max_chars t) × (split_at max_chars t ≤ max_chars)
unfolding split_at
split_at-bounds max_chars t h = elim (Option-cases (last_space max_chars t)) [
  | inl absent ↦ rw (absent, split_at) (h, omega arith)
  | inr (i, found) ↦ rw (found, split_at) (chosen i (last_space_before max_chars t i found))
]
  where
    chosen :
        (i : ℕ)
        → i < max_chars
        → (1 ≤ elim i [ zero ↦ max_chars | suc j ↦ suc j ])
          × (elim i [ zero ↦ max_chars | suc j ↦ suc j ] ≤ max_chars)
    chosen zero k = (h, omega arith)
    chosen (suc j) k = (omega arith, omega arith)

abbrev pub AreChunks : ℕ → Text → List Text → Type 0
AreChunks max_chars t chunks =
    All (λ c. length c ≤ max_chars) chunks × (letters (join chunks) ≡ letters t)

nil_append : (t : Text) → t ++ [] ≡ t
nil_append [] = refl
nil_append (c ∷ cs) = ap (λ u. c ∷ u) (nil_append cs)

chunk_loop_lem :
    (fuel max_chars : ℕ) (remaining : Text)
    → 1 ≤ max_chars
    → length remaining < fuel
    → (chunks : List Text) × (chunk_loop fuel max_chars remaining ≡ some chunks)
      × AreChunks max_chars remaining chunks
unfolding chunk_loop
chunk_loop_lem zero max_chars remaining h k = absurd (omega arith)
chunk_loop_lem (suc fuel) max_chars remaining h k =
    elim (Bool-cases (ltb max_chars (length remaining))) [
      | inr short ↦ rw short (last_chunk remaining (ground arith))
      | inl long ↦
          let n = split_at max_chars remaining in
          let (some_taken, fits) = split_at-bounds max_chars remaining h in
          let shorter = drop_shrinks n remaining some_taken (ground arith) in
          let stripped = length-strip (drop n remaining) in
          let (chunks, found, fine) =
            chunk_loop_lem fuel max_chars (strip (drop n remaining)) h (omega arith) in
          let taken = length-take n remaining in
          let trimmed = length-strip (take n remaining) in
          (
            strip (take n remaining) ∷ chunks,
            rw (long, found) refl,
            (
              ((omega arith), fine.0),
              letters-append (strip (take n remaining)) (join chunks)
                  ∙ (rw (letters-strip (take n remaining), fine.1, letters-strip (drop n remaining))
                      (sym (letters-append (take n remaining) (drop n remaining))
                        ∙ ap letters (take-drop n remaining))),
            ),
          )
    ]
  where
    last_chunk :
        (t : Text)
        → length t ≤ max_chars
        → (chunks : List Text) × ((if is_empty t then some [] else some (t ∷ [])) ≡ some chunks)
          × AreChunks max_chars t chunks
    last_chunk [] l = ([], refl, (tt, refl))
    last_chunk (c ∷ cs) l =
        ((c ∷ cs) ∷ [], refl, ((l, tt), letters-append (c ∷ cs) [] ∙ nil_append (letters (c ∷ cs))))

-- For a positive limit the loop of chunk_text ends and gives chunks of at most that length, which
-- together have the code points of the text in their order, but for whitespace.
pub chunk_text_result :
    (text : Text) (max_chars : ℕ)
    → 1 ≤ max_chars
    → (chunks : List Text) × (chunk_text text max_chars ≡ ok (some chunks))
      × AreChunks max_chars text chunks
unfolding chunk_text
chunk_text_result text max_chars h =
    let positive : (max_chars == 0) ≡ false = ground arith in
    let (chunks, found, fine) =
      chunk_loop_lem (suc (length (strip text))) max_chars (strip text) h (omega arith) in
    (chunks, rw (positive, found) refl, (fine.0, fine.1 ∙ letters-strip text))
