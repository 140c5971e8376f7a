-- ===== src/Tests/Pages.antt =====
-- The continuations of two pages.
use Prim.Native.String.{len}
use codex_web.Common.{
  String, ◌≡◌, refl, Option, none, some, true, false, List, [], ◌∷◌, arith, ◌*◌, inr,
}
use codex_web.Errors.{Outcome, ok, err, panic}
use codex_web.GoMap.{lookup, insert, delete}
use codex_web.Pages.Types.{PageContinuation}
use codex_web.Pages.Cursors
use codex_web.Pages.Cursors.{PageCursors, Saving, save_page_cursor, load_page_cursor}
use codex_web.Prompts.Json
use codex_web.Pages.Walk
use codex_web.Pages.Walk.{Pager, Filling, fill_page, PageEntry, failure, item}
use codex_web.Pages.Ended.{Ends, fill_page-Ends}
use codex_web.Pages.Bounded
use codex_web.Pages.Resumed.{Kept, IsPlaceOf, save_page_cursor-Kept, load-save_page_cursor}

abbrev somewhere : PageContinuation
somewhere = record {
  thread_id = "t";
  cwd = "/w";
  path = "/r";
  identity = "[]";
  generation = 1;
  file = none;
  tail = "";
  turns = some [];
  turn_index = 0;
  turn_cursor = "next";
  item_cursor = "";
  error_emitted = false;
  last_item_id = "";
  last_item_cursor = "";
  last_turn_id = "";
  last_turn_cursor = "";
  latest_turn_id = "";
  volatile_turn_id = "";
  volatile_turn_status = "";
  last_used = 0;
  bytes = 0;
}

abbrev token : String
token = "aaaaaaaaaaaaaaaaaaaaaaaaaaaaaaaa"

abbrev saving : Saving
saving = record { tail = none; turns_length = some 2; token = some token; byte_length = len }

abbrev kept_before : PageCursors
kept_before = ("old", record somewhere { bytes = 8 * 1024 * 1024 }) ∷ []

program : Unit {0}
unfolding Cursors.valid_page_cursor Cursors.save_page_cursor Cursors.store_page_cursor
    Cursors.drop_idle Cursors.total_bytes Cursors.oldest Cursors.make_room Bounded.IsMap lookup
    insert delete
program = tt

save_page_cursor-Kept_example :
    Kept 5 somewhere kept_before (save_page_cursor 5 saving somewhere kept_before)
unfolding program
save_page_cursor-Kept_example = save_page_cursor-Kept 5 saving somewhere kept_before (refl, tt)

load-save_page_cursor_example :
    (loaded : PageContinuation) × ((load_page_cursor 9 token "t"
        (save_page_cursor 5 saving somewhere kept_before).1).0
      ≡ ok loaded)
    × IsPlaceOf somewhere 9 loaded
unfolding program
load-save_page_cursor_example =
    load-save_page_cursor 5 9 saving somewhere kept_before token (refl, tt) refl (omega arith) refl

-- A thread of one turn, which failed, with two items and a reasoning without a summary.
abbrev one_turn : Pager
one_turn = record {
  turns = λ n limit cursor. inr (record {
    entries = some (
        Json.member "id" (Json.str "turn-1") (Json.member "status" (Json.str "failed") Json.end)
        ∷ []);
    next_cursor = none;
  });
  items = λ n turn limit cursor. inr (record {
    entries = some (
        record {
          turn_id = turn;
          raw =
              Json.member "id" (Json.str "c") (Json.member "type" (Json.str "reasoning") Json.end);
        }
        ∷ record { turn_id = turn; raw = Json.member "id" (Json.str "b") Json.end }
        ∷ record { turn_id = turn; raw = Json.member "id" (Json.str "a") Json.end }
        ∷ []);
    next_cursor = none;
  });
  byte_length = len;
  trim_space = λ s. s;
  no_rollout = λ e. false;
}

abbrev newest : PageContinuation
newest = record somewhere { turns = none; turn_cursor = "" }

fill_page-Ends_example :
    (r : Outcome Filling) × (fill_page one_turn true 101 (record {
      place = newest;
      used = 0;
      visited = 0;
      seen_items = [];
      entries = [];
      taken = [];
      requests = 0;
    })
      ≡ some r)
    × Ends one_turn true r
fill_page-Ends_example = fill_page-Ends one_turn true newest

walk : Unit {0}
unfolding Json.field Json.as_string Json.string_at Walk.valid_turn_error Walk.page_turn
    Walk.page_failure Walk.page_key Walk.already_seen Walk.next_of Walk.new_turns Walk.is_terminal
    Walk.note_latest Walk.accept_turns Walk.turn_at Walk.take_items Walk.page_item Walk.texts
    Walk.string_values Walk.join_lines Walk.go_on Walk.accept_items Walk.show_failure
    Walk.visit_turn Walk.visit Walk.fill_round Walk.fill_page
walk = tt

abbrev shown_by : Option (Outcome Filling) → Option (Outcome (List PageEntry))
shown_by (some (ok w)) = some (ok w.entries)
shown_by (some (err e)) = some (err e)
shown_by (some panic) = some panic
shown_by none = none

fill_page_test :
    shown_by (
      fill_page one_turn true 101 (record {
        place = newest;
        used = 0;
        visited = 0;
        seen_items = [];
        entries = [];
        taken = [];
        requests = 0;
      }))
    ≡ some (ok (failure "turn-1" ∷ item "turn-1" "b" ∷ item "turn-1" "a" ∷ []))
unfolding walk
fill_page_test = refl
