-- ===== src/Pages/Types.antt =====
-- The records of the transcript pages (codex/thread_page.go): a turn as `pageTurn` leaves it, a file, and
-- `pageContinuation`.
use codex_web.Common.{String, ℕ, Bool, Option, List}
use codex_web.Prompts.Json.{Json}

-- `startedAt` and `completedAt` are left out: nothing of the walk reads them.
pub record PageTurn : Type 0 where
  pub id : String
  pub status : String
  pub error : Option Json

-- `os.FileInfo`: what `os.SameFile` compares, the size and the time of modification.
pub record FileInfo : Type 0 where
  pub inode : ℕ
  pub size : ℕ
  pub mod_time : ℕ

-- Times are in milliseconds.
pub record PageContinuation : Type 0 where
  pub thread_id : String
  pub cwd : String
  pub path : String
  pub identity : String
  pub generation : ℕ
  pub file : Option FileInfo
  pub tail : String
  pub turns : Option (List PageTurn)
  pub turn_index : ℕ
  pub turn_cursor : String
  pub item_cursor : String
  pub error_emitted : Bool
  pub last_item_id : String
  pub last_item_cursor : String
  pub last_turn_id : String
  pub last_turn_cursor : String
  pub latest_turn_id : String
  pub volatile_turn_id : String
  pub volatile_turn_status : String
  pub last_used : ℕ
  pub bytes : ℕ
