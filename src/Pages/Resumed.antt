-- ===== src/Pages/Resumed.antt =====
-- Saving a continuation and loading it for the next page (`savePageCursor` and `loadPageCursor` of
-- codex/thread_page.go).
use codex_web.Common.{
  String, ℕ, ◌-◌, ◌≤◌, ◌≡◌, refl, sym, ap, subst, true, false, Option, none, some, length, arith,
  ltb, eq_iff, Bool-cases, Option-cases, inl, inr,
}
use codex_web.Errors
use codex_web.Errors.{Error, Outcome, ok, err, panic, Outcome-cases}
use codex_web.GoMap.{lookup}
use codex_web.Pages.Types.{PageContinuation}
use codex_web.Pages.Cursors.{
  PageCursors, page_cursor_limit, page_cursor_bytes, page_cursor_idle, is_idle, continuation_bytes,
  Saving, save_page_cursor, valid_page_cursor, load_page_cursor, total_bytes,
}
use codex_web.Pages.Bounded.{IsMap}
use codex_web.Pages.Evicted.{store_page_cursor-room}

-- What is kept of a continuation: its place, with the tail and the size it was saved with.
abbrev pub IsPlaceOf : PageContinuation → ℕ → PageContinuation → Type 0
IsPlaceOf state now saved =
    saved ≡ record state { tail = saved.tail; bytes = saved.bytes; last_used = now }

-- How a save ends: the continuation is kept, within the bounds, or nothing is changed.
abbrev pub Kept : ℕ → PageContinuation → PageCursors → Outcome String × PageCursors → Type 0
Kept now state before r = elim r.0 [
  | ok token ↦
      IsMap r.1
      × (length r.1 ≤ page_cursor_limit)
      × (total_bytes r.1 ≤ page_cursor_bytes)
      × ((saved : PageContinuation) × (lookup token r.1 ≡ some saved) × IsPlaceOf state now saved)
  | err _ ↦ r.1 ≡ before
  | panic ↦ false ≡ true
]

-- On continuations of which no token stands twice, a save ends: it makes room by dropping continuations,
-- and keeps this one, so that at most 256 of them with at most 8 MiB are kept, or it fails and changes none.
pub save_page_cursor-Kept :
    (now : ℕ) (saving : Saving) (state : PageContinuation) (cursors : PageCursors)
    → IsMap cursors
    → Kept now state cursors (save_page_cursor now saving state cursors)
unfolding save_page_cursor
save_page_cursor-Kept now saving state cursors distinct =
    let whole = save_page_cursor now saving state cursors in
    let as_is = λ (r : Outcome String × PageCursors) (e : whole ≡ r) (p : Kept now state cursors r).
      subst (Kept now state cursors) (sym e) p in
    let tail = elim state.file as (λ _. Option String) [
      | none ↦ some state.tail
      | some _ ↦ saving.tail
    ] in
    elim (Option-cases tail) [
      | inl e ↦ as_is (err Errors.rollout_unreadable, cursors) (ground (arith, e)) refl
      | inr (tail', e) ↦ elim (Option-cases saving.turns_length) [
        | inl f ↦ as_is (err Errors.json_failed, cursors) (ground (arith, e, f)) refl
        | inr (n, f) ↦
            let with_tail = record state { tail = tail' } in
            let sized = record with_tail {
              bytes = continuation_bytes saving.byte_length n with_tail;
            } in
            elim (Bool-cases (ltb page_cursor_bytes sized.bytes)) [
              | inl big ↦
                  as_is (err Errors.continuation_too_large, cursors) (ground (arith, e, f, big))
                    refl
              | inr small ↦ elim (Option-cases saving.token) [
                | inl g ↦
                    as_is (err (Errors.foreign "rand"), cursors) (ground (arith, e, f, g, small))
                      refl
                | inr (token, g) ↦
                    let (after, made, distinct', few, light, there) =
                      store_page_cursor-room now token sized cursors distinct
                        (ground (arith, small)) in
                    as_is (ok token, after) (ground (arith, e, f, g, small, made))
                      (distinct', few, light, (record sized { last_used = now }, there, refl))
              ]
            ]
      ]
    ]

-- A continuation that was saved is loaded again by its token for its thread, within the idle time, at the
-- place where it was saved.
pub load-save_page_cursor :
    (now later : ℕ) (saving : Saving) (state : PageContinuation) (cursors : PageCursors)
    (token : String)
    → IsMap cursors
    → valid_page_cursor token ≡ true
    → later - now ≤ page_cursor_idle
    → (save_page_cursor now saving state cursors).0 ≡ ok token
    → (loaded : PageContinuation) × ((load_page_cursor later token state.thread_id
          (save_page_cursor now saving state cursors).1).0
        ≡ ok loaded)
      × IsPlaceOf state later loaded
unfolding load_page_cursor
load-save_page_cursor now later saving state cursors token distinct valid soon h =
    let after = (save_page_cursor now saving state cursors).1 in
    let kept : Kept now state cursors (ok token, after) =
      subst (λ r. Kept now state cursors (r, after)) h
        (save_page_cursor-Kept now saving state cursors distinct) in
    let (_, _, _, (saved, found, place)) = kept in
    let thread : saved.thread_id ≡ state.thread_id = ap (λ x. x.thread_id) place in
    let used : saved.last_used ≡ now = ap (λ x. x.last_used) place in
    let fresh : is_idle later saved ≡ false = ground (arith, used, soon) in
    (
      record saved { last_used = later },
      ground (arith, valid, found, fresh, thread, eq_iff saved.thread_id state.thread_id),
      ap {A = PageContinuation} (λ x. record x { last_used = later }) place,
    )
