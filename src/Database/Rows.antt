-- ===== src/Database/Rows.antt =====
-- The rows of the table `submission_records`, the scope of a transaction, and the two libraries: the SQL
-- statements of codex/submission_database.go with what SQLite documents of them, and `encoding/json`.
use codex_web.Common.{
  String, ◌≡◌, Bool, true, false, not, ◌&&◌, ◌||◌, Option, none, some, List, [], ◌∷◌, ◌==◌,
  if◌then◌else◌,
}
use codex_web.Ledger.Types.{SendAttempt, QueueDeletionAttempt}
use codex_web.Database.Keys.{SubmissionKey, same_key, KeyMap, row_at, IsMap}

-- `submissionScope`; `write` only chooses how SQLite begins.
pub record SubmissionScope : Type 0 where
  pub thread : String
  pub directory : String
  pub ids : List String
  pub all : Bool

unfoldable pub contains : String → List String → Bool
contains x [] = false
contains x (y ∷ l) = (y == x) || contains x l

-- The `WHERE` clause that `readSubmissionRecordsLocked` makes.
unfoldable pub in_scope : SubmissionScope → SubmissionKey → Bool
in_scope scope k =
    scope.all
    || (not (scope.thread == "")
        && (k.thread == scope.thread)
        && (elim scope.ids [ [] ↦ true | _ ∷ _ ↦ contains k.id scope.ids ]))
    || (not (scope.directory == "")
        && (k.kind == "retirements")
        && (k.thread == "")
        && (k.id == scope.directory))

unfoldable pub has_scope : SubmissionScope → Bool
has_scope scope = scope.all || not (scope.thread == "") || not (scope.directory == "")

pub record Row (Bytes : Type 0) : Type 0 where
  pub payload : Bytes
  pub state : String
  pub action : String
  pub has_options : Bool
  pub claim : String

-- The statements on the table; the Boolean of a statement says whether it succeeds. `fetch` is the row of a
-- primary key.
pub record Sql (Bytes Table : Type 0) : Type 0 where
  pub fetch : SubmissionKey → Table → Option (Row Bytes)
  -- `DELETE FROM submission_records WHERE kind=? AND thread_id=? AND attempt_id=?`
  pub remove_row : SubmissionKey → Table → Bool × Table
  -- `INSERT … ON CONFLICT … DO UPDATE SET …`
  pub upsert : SubmissionKey → Row Bytes → Table → Bool × Table
  -- `SELECT … WHERE …`
  pub select : (SubmissionKey → Bool) → Table → Option (KeyMap (Row Bytes))
  pub fetch-remove_row :
      (k j : SubmissionKey) (t : Table)
      → (remove_row k t).0 ≡ true
      → fetch j (remove_row k t).1 ≡ (if same_key k j then none else fetch j t)
  pub fetch-upsert :
      (k j : SubmissionKey) (row : Row Bytes) (t : Table)
      → (upsert k row t).0 ≡ true
      → fetch j (upsert k row t).1 ≡ (if same_key k j then some row else fetch j t)
  pub select-IsMap :
      (p : SubmissionKey → Bool) (t : Table) (rows : KeyMap (Row Bytes))
      → select p t ≡ some rows
      → IsMap rows
  pub row_at-select :
      (p : SubmissionKey → Bool) (t : Table) (rows : KeyMap (Row Bytes))
      → select p t ≡ some rows
      → (k : SubmissionKey) → row_at k rows ≡ (if p k then fetch k t else none)

-- `json.Marshal`, a strict decoder, `json.Unmarshal` and `bytes.Equal`. The claim of an attempt is no field
-- of its JSON.
pub record Codec (Bytes : Type 0) : Type 0 where
  pub encode_text : String → Option Bytes
  pub encode_send : SendAttempt → Option Bytes
  pub encode_deletion : QueueDeletionAttempt → Option Bytes
  pub decode_text : Bytes → Option String
  pub decode_send : Bytes → Option SendAttempt
  pub decode_deletion : Bytes → Option QueueDeletionAttempt
  pub unmarshal_send : Bytes → Option SendAttempt
  pub same_bytes : Bytes → Bytes → Bool
  pub decode-encode_send :
      (a : SendAttempt) (b : Bytes)
      → encode_send a ≡ some b
      → decode_send b ≡ some (record a { admission_id = "" })
  pub same_bytes_sound : (a b : Bytes) → same_bytes a b ≡ true → a ≡ b
