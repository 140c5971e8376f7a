-- ===== src/Prompts/Notices.antt =====
-- The notices of a thread: `rejectUnsupported`, `recordWatchError` and `clearWatchError`
-- (codex/client.go).
use codex_web.Common.{
  String, ℕ, ◌-◌, Bool, true, false, Option, none, some, List, [], ◌∷◌, ◌++◌, length, ◌==◌, nat_eq,
  ltb, if◌then◌else◌,
}
use codex_web.GoMap.{insert}
use codex_web.Prompts.State.{Notice, PromptState, notices_of, bump_pending, prune_pending_revision}

abbrev pub set_notices : String → List Notice → PromptState → PromptState
set_notices thread l s = record s { notices = insert thread l s.notices }

unfoldable pub drop : ℕ → List Notice → List Notice
drop n [] = []
drop n (x ∷ l) = let rest = drop (n - 1) l in if nat_eq n 0 then x ∷ l else rest

-- The notice of `rejectUnsupported`: the last twenty are kept.
unfoldable pub add_notice : String → Notice → PromptState → PromptState
add_notice thread notice s =
    let notices = notices_of thread s.notices ++ (notice ∷ []) in
    if thread == ""
    then s
    else bump_pending thread (
        set_notices thread
          (if ltb 20 (length notices) then drop (length notices - 20) notices else notices) s)

-- The first element says whether a notice was replaced.
unfoldable pub replace_notice : Notice → List Notice → Bool × List Notice
replace_notice notice [] = (false, [])
replace_notice notice (x ∷ l) =
    let (found, rest) = replace_notice notice l in
    if x.id == notice.id then (true, notice ∷ rest) else (found, x ∷ rest)

unfoldable pub record_watch_error : String → Notice → PromptState → PromptState
record_watch_error thread notice s =
    let (replaced, notices) = replace_notice notice (notices_of thread s.notices) in
    bump_pending thread
      (set_notices thread (if replaced then notices else notices ++ (notice ∷ [])) s)

-- The notices without the first of that identity, `none` where there is none.
unfoldable pub without_notice : String → List Notice → Option (List Notice)
without_notice id [] = none
without_notice id (x ∷ l) =
    let rest = without_notice id l in
    if x.id == id then some l else elim rest [ none ↦ none | some l' ↦ some (x ∷ l') ]

unfoldable pub clear_watch_error : String → String → PromptState → PromptState
clear_watch_error thread id s =
    let notices = notices_of thread s.notices in
    prune_pending_revision thread (elim (without_notice id notices) [
      | none ↦ set_notices thread notices s
      | some rest ↦ set_notices thread rest (bump_pending thread s)
    ])
