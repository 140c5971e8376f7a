-- ===== src/Pages/Walk.antt =====
-- The walk that fills one page (`readThreadPage`, `pageTurn` and `pageFailure` of codex/thread_page.go): the
-- loop over turns and items, from a continuation, or from the newest turn. An entry of the page stands for
-- all that the client shows of an item; of reasoning without a summary it shows nothing.
use Prim.Native.String.{◌++◌ as ◌<>◌}
use codex_web.Common.{
  String, ℕ, zero, suc, ◌+◌, ◌-◌, Bool, true, false, not, ◌&&◌, ◌||◌, Option, none, some, List, [],
  ◌∷◌, ◌++◌, length, ltb, leb, nat_eq, ◌==◌, if◌then◌else◌, ◌⊎◌, inl, inr,
}
use codex_web.Errors
use codex_web.Errors.{Error, Outcome, ok, err, panic, ◌>>=◌, ◌>>◌, require}
use codex_web.Prompts.Json.{Json, null, str, arr, obj, Items, nil, cons, Members, field, string_at}
use codex_web.Pages.Types.{PageTurn, PageContinuation}

abbrev pub transcript_page_size : ℕ
transcript_page_size = 100

unfoldable pub valid_turn_error : Option Json → Bool
valid_turn_error none = true
valid_turn_error (some null) = true
valid_turn_error (some (str message)) = not (message == "")
valid_turn_error (some (obj failure)) = not (string_at "message" failure == "")
valid_turn_error (some _) = false

-- An error of JSON null is none.
abbrev pub as_error : Option Json → Option Json
as_error (some null) = none
as_error o = o

-- `pageTurn`: the status is a text.
unfoldable pub page_turn : Members → Outcome PageTurn
page_turn raw = do
  require (not (string_at "id" raw == "") && not (string_at "status" raw == ""))
      Errors.turn_without_identity
  require (valid_turn_error (field "error" raw)) Errors.invalid_turn_error
  ok (record {
    id = string_at "id" raw;
    status = string_at "status" raw;
    error = as_error (field "error" raw);
  })

-- Whether `pageFailure` gives an entry.
unfoldable pub page_failure : PageTurn → Bool
page_failure turn = elim turn.error [
  | some _ ↦ true
  | none ↦ (turn.status == "failed") || (turn.status == "error")
]

pub record ItemEntry : Type 0 where
  pub turn_id : String
  pub raw : Members

abbrev pub item_id : ItemEntry → String
item_id entry = string_at "id" entry.raw

pub record TurnsPage : Type 0 where
  pub entries : Option (List Members)
  pub next_cursor : Option String

pub record ItemsPage : Type 0 where
  pub entries : Option (List ItemEntry)
  pub next_cursor : Option String

-- The App Server's answers: to the n-th request for turns, with its limit and cursor, and to the n-th for
-- items, with its turn, limit and cursor; and whether an error of the first kind is that of a thread that has
-- no rollout yet (`freshThreadMissingSourceRollout`). `byte_length` is Go's `len` of a text, and `trim_space`
-- its `strings.TrimSpace`.
pub record Pager : Type 0 where
  pub turns : ℕ → ℕ → String → Error ⊎ TurnsPage
  pub items : ℕ → String → ℕ → String → Error ⊎ ItemsPage
  pub byte_length : String → ℕ
  pub trim_space : String → String
  pub no_rollout : Error → Bool

pub data PageEntry : Type 0 where
  failure : String → PageEntry
  item : String → String → PageEntry

unfoldable pub texts : Items → List String
texts nil = []
texts (cons (str s) rest) = s ∷ texts rest
texts (cons _ rest) = texts rest

-- `stringValues`
unfoldable pub string_values : Option Json → List String
string_values (some (arr values)) = texts values
string_values _ = []

-- `strings.Join(values, "\n")`
unfoldable pub join_lines : List String → String
join_lines [] = ""
join_lines (x ∷ []) = x
join_lines (x ∷ rest) = x <> ("\n" <> join_lines rest)

-- What a page shows of an item (`pageItem` and `transcriptEntries`, of one item of a turn that completed).
unfoldable pub page_item : (String → String) → String → Members → List PageEntry
page_item trim_space turn raw =
    if (string_at "type" raw == "reasoning")
      && (trim_space (join_lines (string_values (field "summary" raw))) == "")
    then []
    else (item turn (string_at "id" raw) ∷ [])

-- The variables of the loop; the entries are the newest last, and `requests` counts the requests. `taken` is a
-- history variable: the items that the page has counted, the newest last.
pub record Filling : Type 0 where
  pub place : PageContinuation
  pub used : ℕ
  pub visited : ℕ
  pub seen_items : List String
  pub entries : List PageEntry
  pub taken : List ItemEntry
  pub requests : ℕ

-- A round goes on, or ends the loop.
pub data Round : Type 0 where
  again : Filling → Round
  stop : Filling → Round

unfoldable pub page_key : String → String → String
page_key turn id = turn <> "\0" <> id

unfoldable pub already_seen : String → List String → Bool
already_seen x [] = false
already_seen x (y ∷ l) = (y == x) || already_seen x l

-- The cursor of an answer; `before` and `last` are the two that it must not be.
unfoldable pub next_of : (String → ℕ) → String → String → Option String → Outcome String
next_of size before last none = ok ""
next_of size before last (some cursor) = do
  require
      (not (cursor == "")
        && not (cursor == before)
        && not (cursor == last)
        && leb (size cursor) 4096)
      Errors.invalid_page_cursor
  ok cursor

-- The loop over a page of turns; `seen` are the identities before it on the page.
unfoldable pub new_turns : String → List String → List Members → Outcome (List PageTurn)
new_turns last seen [] = ok []
new_turns last seen (raw ∷ rest) = do
  turn ← page_turn raw
  require (not (already_seen turn.id seen) && not (turn.id == last)) Errors.repeated_turn
  turns ← new_turns last (turn.id ∷ seen) rest
  ok (turn ∷ turns)

unfoldable pub is_terminal : String → Bool
is_terminal status =
    (status == "completed")
    || (status == "failed")
    || (status == "interrupted")
    || (status == "error")

-- The newest turn, where the page is the first to see one.
unfoldable pub note_latest : List PageTurn → PageContinuation → PageContinuation
note_latest [] place = place
note_latest (turn ∷ _) place =
    if place.latest_turn_id == ""
    then (if is_terminal turn.status
        then record place { latest_turn_id = turn.id }
        else record place {
          latest_turn_id = turn.id;
          volatile_turn_id = turn.id;
          volatile_turn_status = turn.status;
        })
    else place

unfoldable pub accept_turns : (String → ℕ) → ℕ → TurnsPage → Filling → Outcome Filling
accept_turns size limit page w = elim page.entries [
  | none ↦ err Errors.invalid_page
  | some raws ↦ do
    require (leb (length raws) limit) Errors.invalid_page
    require
        (not (nat_eq (length raws) 0) || (elim page.next_cursor [ none ↦ true | some _ ↦ false ]))
        Errors.page_without_progress
    next ← next_of size w.place.turn_cursor w.place.last_turn_cursor page.next_cursor
    turns ← new_turns w.place.last_turn_id [] raws
    ok (record w {
      place = record (note_latest turns w.place) {
        turns = some turns;
        turn_index = 0;
        last_turn_cursor = w.place.turn_cursor;
        turn_cursor = next;
      };
    })
]

abbrev pub turns_of : PageContinuation → List PageTurn
turns_of place = elim place.turns [ none ↦ [] | some turns ↦ turns ]

unfoldable pub turn_at : ℕ → List PageTurn → Option PageTurn
turn_at n [] = none
turn_at zero (turn ∷ _) = some turn
turn_at (suc n) (_ ∷ turns) = turn_at n turns

-- The loop over a page of items, of which `first` is the first.
unfoldable pub take_items :
    (String → String) → String → Bool → List ItemEntry → Filling → Outcome Filling
take_items trim_space turn first [] w = ok w
take_items trim_space turn first (entry ∷ rest) w =
    let more = take_items trim_space turn false rest (record w {
      place = record w.place { last_item_id = item_id entry };
      used = 1 + w.used;
      seen_items = page_key entry.turn_id (item_id entry) ∷ w.seen_items;
      entries = w.entries ++ page_item trim_space turn entry.raw;
      taken = w.taken ++ (entry ∷ []);
    }) in
    do
      require
          ((entry.turn_id == turn)
            && not (item_id entry == "")
            && not (already_seen (page_key entry.turn_id (item_id entry)) w.seen_items)
            && not (first && (item_id entry == w.place.last_item_id)))
          Errors.invalid_page_item
      more

-- The end of a round: the next page of the turn's items, or the next turn.
unfoldable pub go_on : (String → ℕ) → String → ItemsPage → Filling → Outcome Filling
go_on size turn page w = elim page.next_cursor [
  | none ↦ ok (record w {
    place = record w.place {
      last_turn_id = turn;
      turn_index = suc w.place.turn_index;
      item_cursor = "";
      last_item_cursor = "";
      last_item_id = "";
      error_emitted = false;
    };
  })
  | some cursor ↦ do
    next ← next_of size w.place.item_cursor w.place.last_item_cursor (some cursor)
    ok (record w {
      place = record w.place { last_item_cursor = w.place.item_cursor; item_cursor = next };
    })
]

unfoldable pub accept_items :
    (String → ℕ) → (String → String) → String → ℕ → ItemsPage → Filling → Outcome Filling
accept_items size trim_space turn limit page w = elim page.entries [
  | none ↦ err Errors.invalid_page
  | some entries ↦ do
    require (leb (length entries) limit) Errors.invalid_page
    require
        (not (nat_eq (length entries) 0)
          || (elim page.next_cursor [ none ↦ true | some _ ↦ false ]))
        Errors.page_without_progress
    w' ← take_items trim_space turn true entries w
    go_on size turn page w'
]

-- The failure of a turn is shown once.
unfoldable pub show_failure : PageTurn → Filling → Filling
show_failure turn w =
    if w.place.error_emitted
    then w
    else (let marked = record w { place = record w.place { error_emitted = true } } in
        if page_failure turn
        then record marked { entries = w.entries ++ (failure turn.id ∷ []); used = 1 + w.used }
        else marked)

module _ (pager : Pager) (is_first : Bool) where
  -- The turn of a round.
  unfoldable pub visit_turn : PageTurn → Filling → Outcome Round
  visit_turn turn w =
      let shown = show_failure turn (record w { visited = 1 + w.visited }) in
      let limit = transcript_page_size - shown.used in
      if nat_eq shown.used transcript_page_size
      then ok (stop shown)
      else (elim (pager.items shown.requests turn.id limit shown.place.item_cursor) [
        | inl e ↦ err e
        | inr page ↦
            accept_items pager.byte_length pager.trim_space turn.id limit page
              (record shown { requests = 1 + shown.requests })
            >>= λ w'. ok (again w')
      ])

  unfoldable pub visit : Filling → Outcome Round
  visit w = elim (turn_at w.place.turn_index (turns_of w.place)) [
    | none ↦ panic
    | some turn ↦ visit_turn turn w
  ]

  -- One round of the loop.
  unfoldable pub fill_round : Filling → Outcome Round
  fill_round w =
      let limit = transcript_page_size - w.visited in
      let asked = record w { requests = 1 + w.requests } in
      if ltb w.place.turn_index (length (turns_of w.place))
      then visit w
      else (if (elim w.place.turns [ none ↦ false | some _ ↦ true ]) && (w.place.turn_cursor == "")
          then ok (stop w)
          else (elim (pager.turns w.requests limit w.place.turn_cursor) [
            | inl e ↦ if is_first && pager.no_rollout e then ok (stop asked) else err e
            | inr page ↦ accept_turns pager.byte_length limit page asked >>= λ w'.
                if nat_eq (length (turns_of w'.place)) 0 then ok (stop w') else visit w'
          ]))

  -- The loop; `none` where the fuel has run out.
  unfoldable pub fill_page : ℕ → Filling → Option (Outcome Filling)
  fill_page zero w = none
  fill_page (suc fuel) w =
      if ltb w.used transcript_page_size && ltb w.visited transcript_page_size
      then (elim (fill_round w) [
        | err e ↦ some (err e)
        | panic ↦ some panic
        | ok (stop w') ↦ some (ok w')
        | ok (again w') ↦ fill_page fuel w'
      ])
      else some (ok w)

-- `page.HasOlder`
unfoldable pub has_older : PageContinuation → Bool
has_older place =
    not (place.item_cursor == "")
    || ltb place.turn_index (length (turns_of place))
    || not (place.turn_cursor == "")
