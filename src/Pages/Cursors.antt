-- ===== src/Pages/Cursors.antt =====
-- The continuations by their tokens: `validPageCursor`, `loadPageCursor` and `savePageCursor` of
-- codex/thread_page.go, each under the mutex of the map. `now` is the clock, which never goes back.

use Prim.Native.String.{len}
use Prim.Native.Char.{code}
use codex_web.Common.{
  String, ℕ, zero, suc, ◌+◌, ◌-◌, ◌*◌, Bool, true, ◌&&◌, ◌||◌, Option, none, some, [], ◌∷◌, length,
  ltb, leb, nat_eq, ◌==◌, if◌then◌else◌,
}
use codex_web.Errors
use codex_web.Errors.{Outcome, ok, err, panic}
use codex_web.GoMap.{GoMap, lookup, insert, delete}
use codex_web.Pages.Types.{PageContinuation}

abbrev pub page_cursor_limit : ℕ
page_cursor_limit = 256

abbrev pub page_cursor_bytes : ℕ
page_cursor_bytes = 8 * 1024 * 1024

-- 30 minutes
abbrev pub page_cursor_idle : ℕ
page_cursor_idle = 30 * 60 * 1000

cursor_char : ℕ → Bool
cursor_char c =
    (leb b'A' c && leb c b'Z')
    || (leb b'a' c && leb c b'z')
    || (leb b'0' c && leb c b'9')
    || nat_eq c b'-'
    || nat_eq c b'_'

cursor_chars : String → Bool
unfolding cursor_char
cursor_chars String.[] = true
cursor_chars (String.◌∷◌ c s) = cursor_char (code c) && cursor_chars s

unfoldable pub valid_page_cursor : String → Bool
unfolding cursor_chars
valid_page_cursor token = nat_eq (len token) 32 && cursor_chars token

abbrev pub PageCursors : Type 0
PageCursors = GoMap PageContinuation

abbrev pub is_idle : ℕ → PageContinuation → Bool
is_idle now state = ltb page_cursor_idle (now - state.last_used)

-- `loadPageCursor`
unfoldable pub load_page_cursor :
    ℕ → String → String → PageCursors → Outcome PageContinuation × PageCursors
load_page_cursor now token thread cursors =
    if valid_page_cursor token
    then (elim (lookup token cursors) [
      | none ↦ (err Errors.cursor_expired, delete token cursors)
      | some state ↦
          if is_idle now state
          then (err Errors.cursor_expired, delete token cursors)
          else (if state.thread_id == thread
              then (
                ok (record state { last_used = now }),
                insert token (record state { last_used = now }) cursors,
              )
              else (err Errors.reset_required, cursors))
    ])
    else (err Errors.cursor_invalid, cursors)

-- The loop that deletes the idle continuations.
unfoldable pub drop_idle : ℕ → PageCursors → PageCursors → PageCursors
drop_idle now [] cursors = cursors
drop_idle now ((token, state) ∷ entries) cursors =
    drop_idle now entries (if is_idle now state then delete token cursors else cursors)

unfoldable pub total_bytes : PageCursors → ℕ
total_bytes [] = 0
total_bytes ((_, state) ∷ cursors) = state.bytes + total_bytes cursors

-- The first of the continuations used longest ago; a token is never empty.
unfoldable pub oldest : PageCursors → Option (String × ℕ)
oldest [] = none
oldest ((token, state) ∷ cursors) = elim (oldest cursors) [
  | none ↦ some (token, state.last_used)
  | some (later, used) ↦
      if leb state.last_used used then some (token, state.last_used) else some (later, used)
]

-- The loop that makes room. Fuel is spent by a round, and `none` where it has run out.
unfoldable pub make_room : ℕ → ℕ → PageCursors → Option PageCursors
make_room zero total cursors = none
make_room (suc fuel) total cursors =
    let next = elim (oldest cursors) as (λ _. Option (ℕ × PageCursors)) [
      | none ↦ none
      | some (token, _) ↦ some (
        total - (elim (lookup token cursors) [ none ↦ 0 | some state ↦ state.bytes ]),
        delete token cursors,
      )
    ] in
    if leb page_cursor_limit (length cursors) || ltb page_cursor_bytes total
    then (elim next [
      | none ↦ some cursors
      | some (total', cursors') ↦ make_room fuel total' cursors'
    ])
    else some cursors

-- What `savePageCursor` has from outside: the tail of the rollout file (`pageRolloutTail`), the length of the turns as JSON, and
-- the random token; `byte_length` is Go's `len` of a text, in bytes.
pub record Saving : Type 0 where
  pub tail : Option String
  pub turns_length : Option ℕ
  pub token : Option String
  pub byte_length : String → ℕ

abbrev pub continuation_bytes : (String → ℕ) → ℕ → PageContinuation → ℕ
continuation_bytes byte_length turns_length state =
    turns_length
    + byte_length state.turn_cursor
    + byte_length state.item_cursor
    + byte_length state.identity
    + byte_length state.tail
    + 512

-- The part of `savePageCursor` under the mutex.
unfoldable pub store_page_cursor : ℕ → String → PageContinuation → PageCursors → Option PageCursors
store_page_cursor now token state cursors =
    let kept = drop_idle now cursors cursors in
    elim (make_room (suc (length kept)) (state.bytes + total_bytes kept) kept) [
      | none ↦ none
      | some left ↦ some (insert token (record state { last_used = now }) left)
    ]

-- `savePageCursor`; `panic` stands for a loop that ran out of fuel.
unfoldable pub save_page_cursor :
    ℕ → Saving → PageContinuation → PageCursors → Outcome String × PageCursors
save_page_cursor now saving state cursors =
    let tail = elim state.file as (λ _. Option String) [
      | none ↦ some state.tail
      | some _ ↦ saving.tail
    ] in
    elim tail [
      | none ↦ (err Errors.rollout_unreadable, cursors)
      | some tail ↦ elim saving.turns_length [
        | none ↦ (err Errors.json_failed, cursors)
        | some turns_length ↦
            let with_tail = record state { tail = tail } in
            let sized = record with_tail {
              bytes = continuation_bytes saving.byte_length turns_length with_tail;
            } in
            if ltb page_cursor_bytes sized.bytes
            then (err Errors.continuation_too_large, cursors)
            else (elim saving.token [
              | none ↦ (err (Errors.foreign "rand"), cursors)
              | some token ↦ elim (store_page_cursor now token sized cursors) [
                | none ↦ (panic, cursors)
                | some cursors' ↦ (ok token, cursors')
              ]
            ])
      ]
    ]
