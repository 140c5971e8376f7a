-- ===== src/History/Walk.antt =====
-- A walk over a thread's items (`walkThreadItems`) and its queue (`ListQueue`) of codex/client.go, page by
-- page, with the visitor's captured variables as explicit state.
use codex_web.Common.{
  String, Bool, false, ◌||◌, Option, none, some, List, [], ◌∷◌, ◌==◌, if◌then◌else◌,
}
use codex_web.Errors
use codex_web.Errors.{Outcome, ok, err, panic, ◌>>=◌, require}

-- One element of a user message's `content`; `none` is one that is not an object.
pub record Input : Type 0 where
  pub kind : String
  pub text : String

-- `threadItemEntry`, with the fields of its item that the client reads: a missing string is "",
-- `content` is `none` where it is not a list.
pub record ThreadItemEntry : Type 0 where
  pub turn_id : String
  pub id : String
  pub item_type : String
  pub client_id : String
  pub content : Option (List (Option Input))

-- A page of either list: `data` and `nextCursor`, each possibly null.
pub record Page {ℓ} (A : Type ℓ) : Type ℓ where
  pub entries : Option (List A)
  pub next_cursor : Option String

unfoldable pub seen : String → List String → Bool
seen x [] = false
seen x (y ∷ ys) = (x == y) || seen x ys

-- The checks on a cursor that precede the next request.
unfoldable pub accept_cursor : List String → String → Outcome (List String)
accept_cursor cursors cursor =
    if cursor == ""
    then err Errors.empty_cursor
    else (if seen cursor cursors then err Errors.repeated_cursor else ok (cursor ∷ cursors))

-- What a visitor returns: its state, and whether the walk stops.
pub record Visited (S : Type 0) : Type 0 where
  pub state : S
  pub stop : Bool

module _ {S : Type 0} (visit : S → ThreadItemEntry → Outcome (Visited S)) where
  -- One page: the visitor's state, the items seen, and whether to stop.
  unfoldable pub visit_page :
      S → List String → List ThreadItemEntry → Outcome (Visited S × List String)
  visit_page s ids [] = ok (record { state = s; stop = false }, ids)
  visit_page s ids (entry ∷ entries) =
      if (entry.turn_id == "") || (entry.id == "")
      then err Errors.invalid_item
      else (if seen entry.id ids then err Errors.repeated_item else (elim (visit s entry) [
        | err e ↦ err e
        | panic ↦ panic
        | ok visited ↦
            let rest = visit_page visited.state (entry.id ∷ ids) entries in
            if visited.stop then ok (visited, entry.id ∷ ids) else rest
      ]))

  unfoldable pub walk_thread_items :
      S → List String → List String → List (Outcome (Page ThreadItemEntry)) → Outcome S
  walk_thread_items s ids cursors [] = err Errors.deadline_exceeded
  walk_thread_items s ids cursors (err e ∷ answers) = err e
  walk_thread_items s ids cursors (panic ∷ answers) = panic
  walk_thread_items s ids cursors (ok page ∷ answers) = elim page.entries [
    | none ↦ err Errors.no_data
    | some entries ↦ elim (visit_page s ids entries) [
      | err e ↦ err e
      | panic ↦ panic
      | ok (visited, ids') ↦ elim page.next_cursor [
        | none ↦ ok visited.state
        | some cursor ↦
            if visited.stop then ok visited.state else (elim (accept_cursor cursors cursor) [
              | err e ↦ err e
              | panic ↦ panic
              | ok cursors' ↦ walk_thread_items visited.state ids' cursors' answers
            ])
      ]
    ]
  ]
