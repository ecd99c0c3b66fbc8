-- ===== src/Checks/Requests.antt =====
-- The theorems on submissions and on chunks at concrete inputs.
use evoblue_video_mcp.Prelude.{
  false, true, ◌⊎◌, none, some, List, [], ◌∷◌, All, Mem, ◌≡◌, refl, arith,
}
use evoblue_video_mcp.Outcome.{ok}
use evoblue_video_mcp.Sql.Memory.{memory, memory-IsLawful, insertion_sort}
use evoblue_video_mcp.Sql.Keys.{AtMostOne}
use evoblue_video_mcp.Jobs.States.{is_terminal}
use evoblue_video_mcp.Storage.Models.{Job}
use evoblue_video_mcp.Storage.Session.{get_required}
use evoblue_video_mcp.Application.Submit.{is_unfinished, submitted, find_reusable, submit_video}
use evoblue_video_mcp.Application.Reuse.{
  unfinished_for, completed_for, Continues, Repeats, submit_keeps_single, resubmitted,
  find_reusable_cases,
}
use evoblue_video_mcp.Transcript.Chunker.{Text, chunk_text}
use evoblue_video_mcp.Transcript.Bounds.{AreChunks, chunk_text_result}

-- one request, submitted twice
abbrev first_request : Job
first_request = submitted 1 "j1" "fp" "https://www.youtube.com/watch?v=x" "c" "auto" "auto" none 10

abbrev second_request : Job
second_request = submitted 2 "j2" "fp" "https://www.youtube.com/watch?v=x" "c" "auto" "auto" none 11

abbrev no_jobs : List Job
no_jobs = []

submit_keeps_single_example :
    AtMostOne (is_unfinished "fp") (submit_video memory first_request 10 60 no_jobs).1
submit_keeps_single_example =
    submit_keeps_single memory memory-IsLawful first_request 10 60 no_jobs "fp" tt

first_is_new : (submit_video memory first_request 10 60 no_jobs).0 ≡ ok (first_request, false)
unfolding submit_video submitted insertion_sort get_required
first_is_new = refl

first_is_live : is_terminal first_request.status ≡ false
unfolding submitted is_terminal
first_is_live = refl

same_fingerprint : second_request.request_fingerprint ≡ first_request.request_fingerprint
unfolding submitted
same_fingerprint = refl

resubmitted_example :
    let t' = (submit_video memory first_request 10 60 no_jobs).1 in
    Mem first_request t'
    × (submit_video memory second_request 11 60 t' ≡ (ok (first_request, true), t'))
resubmitted_example =
    resubmitted memory memory-IsLawful first_request second_request 10 60 11 60 no_jobs
      first_request first_is_live same_fingerprint first_is_new

find_reusable_cases_example :
    ((j : Job) × (find_reusable memory "fp" 10 60 (first_request ∷ []) ≡ some j)
      × (Continues memory memory-IsLawful "fp" 10 60 (first_request ∷ []) j
          ⊎ Repeats memory memory-IsLawful "fp" 10 60 (first_request ∷ []) j))
    ⊎ ((find_reusable memory "fp" 10 60 (first_request ∷ []) ≡ none)
        × All (λ j. unfinished_for "fp" j ≡ false) (first_request ∷ [])
        × All (λ j. completed_for "fp" 10 60 j ≡ false) (first_request ∷ []))
find_reusable_cases_example =
    find_reusable_cases memory memory-IsLawful "fp" 10 60 (first_request ∷ [])

-- "ab cd"
abbrev words : Text
words = 97 ∷ 98 ∷ 32 ∷ 99 ∷ 100 ∷ []

chunk_text_result_example :
    (chunks : List Text) × (chunk_text words 3 ≡ ok (some chunks)) × AreChunks 3 words chunks
chunk_text_result_example = chunk_text_result words 3 (omega arith)
