-- ===== src/Database/Session.antt =====
-- A transaction on the submission database: `readSubmissionRecordsLocked`, `installSubmissionRecord`,
-- `submissionRecords`, `writeSubmissionRecordsLocked` and `submissionTransaction`
-- (codex/submission_database.go).
use codex_web.Common.{
  String, Bool, true, false, not, ◌&&◌, Option, none, some, [], ◌∷◌, ◌==◌, if◌then◌else◌,
}
use codex_web.Errors
use codex_web.Errors.{Error, Outcome, ok, err, panic, ◌>>=◌, ◌>>◌, require}
use codex_web.GoMap.{GoMap, lookup, insert, is_empty}
use codex_web.Library.{Library}
use codex_web.ThreadMap.{ThreadMap, find, ensure, assign}
use codex_web.TurnOptions.{effective_turn_options_digest, persisted_turn_options_digest, is_abs}
use codex_web.Ledger.Types.{
  SendState, prepared, submitting, accepted, other, SendAttempt, Ledger, empty_ledger,
}
use codex_web.Ledger.Load.{valid_submission_digest, valid_send_attempt_state, options_have_digest}
use codex_web.Database.Keys.{SubmissionKey, key, KeyMap, row_at, put_row}
use codex_web.Database.Rows.{SubmissionScope, in_scope, has_scope, Row, Sql, Codec}

-- How the steps of a transaction up to `BEGIN` end.
pub data Beginning : Type 0 where
  begun : Beginning
  unavailable : Error → Beginning

-- `c.….[thread][id] = value`, once the thread's map is made.
unfoldable pub put_entry {ℓ} :
    {V : Type ℓ} → String → String → V → ThreadMap V → Outcome (ThreadMap V)
put_entry t c v m = elim (assign t c v (ensure t m)) [ none ↦ panic | some m' ↦ ok m' ]

-- A decoder's or an encoder's result, or its error.
abbrev pub or_json {ℓ} : {A : Type ℓ} → Option A → Outcome A
or_json none = err Errors.json_failed
or_json (some a) = ok a

unfoldable pub state_name : SendState → String
state_name prepared = "prepared"
state_name submitting = "submitting"
state_name accepted = "accepted"
state_name (other name) = name

abbrev pub zero_attempt : SendAttempt
zero_attempt = record {
  admission_id = "";
  digest = "";
  state = other "";
  context = "";
  options_digest = "";
  options = none;
  steered = false;
  turn_id = "";
}

pub record Session (Bytes Table : Type 0) : Type 0 where
  pub memory : Ledger
  pub before : KeyMap Bytes
  pub table : Table

-- Statements in their order; the first that fails ends them.
abbrev pub then_do {ℓ} :
    {Table : Type ℓ}
    → Outcome (Unit {0}) × Table
    → (Table → Outcome (Unit {0}) × Table)
    → Outcome (Unit {0}) × Table
then_do (ok _, t) f = f t
then_do (err e, t) f = (err e, t)
then_do (panic, t) f = (panic, t)

abbrev pub executed {ℓ} : {Table : Type ℓ} → Bool × Table → Outcome (Unit {0}) × Table
executed (true, t) = (ok tt, t)
executed (false, t) = (err Errors.statement_failed, t)

module _ {Bytes Table : Type 0} (lib : Library) (codec : Codec Bytes) (sql : Sql Bytes Table) where
  unfoldable pub install_queue : SubmissionKey → Bytes → Ledger → Outcome Ledger
  install_queue k bytes l = do
    digest ← or_json (codec.decode_text bytes)
    require (not (k.thread == "") && valid_submission_digest digest)
        Errors.invalid_queued_submission
    m ← put_entry k.thread k.id digest l.queue_attempts
    ok (record l { queue_attempts = m })

  -- The tests of a stored attempt, in their order.
  unfoldable pub check_send : SubmissionKey → SendAttempt → Outcome (Unit {0})
  check_send k attempt = do
    require
        (not (k.thread == "")
          && valid_submission_digest attempt.digest
          && valid_submission_digest (effective_turn_options_digest lib attempt.options_digest)
          && valid_send_attempt_state attempt)
        Errors.invalid_stored_send
    require
        (options_have_digest lib attempt.options
          (effective_turn_options_digest lib attempt.options_digest))
        Errors.invalid_stored_options

  -- The attempt as it is kept: the digest of no options is an omitted one.
  unfoldable pub stored_attempt : SendAttempt → SendAttempt
  stored_attempt attempt = record attempt {
    options_digest =
        persisted_turn_options_digest lib
          (effective_turn_options_digest lib attempt.options_digest);
  }

  unfoldable pub install_send : SubmissionKey → Bytes → Ledger → Outcome Ledger
  install_send k bytes l = do
    attempt ← or_json (codec.decode_send bytes)
    check_send k attempt
    m ← put_entry k.thread k.id (stored_attempt attempt) l.send_attempts
    ok (record l { send_attempts = m })

  unfoldable pub install_deletion : SubmissionKey → Bytes → Ledger → Outcome Ledger
  install_deletion k bytes l = do
    attempt ← or_json (codec.decode_deletion bytes)
    require
        (not (k.thread == "")
          && not (attempt.client_user_message_id == "")
          && valid_submission_digest attempt.digest)
        Errors.invalid_deletion_intent
    m ← put_entry k.thread k.id attempt l.queue_deletions
    ok (record l { queue_deletions = m })

  unfoldable pub install_retirement : SubmissionKey → Bytes → Ledger → Outcome Ledger
  install_retirement k bytes l = do
    thread ← or_json (codec.decode_text bytes)
    require ((k.thread == "") && is_abs k.id && not (thread == "")) Errors.invalid_retirement_marker
    ok (record l { operations = insert k.id thread l.operations })

  -- `installSubmissionRecord`
  unfoldable pub install_record : SubmissionKey → Bytes → Ledger → Outcome Ledger
  install_record k bytes l =
      if k.id == ""
      then err Errors.no_attempt_identity
      else (if k.kind == "attempts"
          then install_queue k bytes l
          else (if k.kind == "sends"
              then install_send k bytes l
              else (if k.kind == "deletions"
                  then install_deletion k bytes l
                  else (if k.kind == "retirements"
                      then install_retirement k bytes l
                      else err Errors.unknown_record_kind))))

  -- The claim's column, for a send.
  unfoldable pub stamp : SubmissionKey → String → Ledger → Outcome Ledger
  stamp k claim l =
      let attempt : SendAttempt = elim (find k.thread k.id l.send_attempts) [
        | none ↦ zero_attempt
        | some a ↦ a
      ] in
      if k.kind == "sends"
      then (elim (assign k.thread k.id (record attempt { admission_id = claim }) l.send_attempts) [
        | none ↦ panic
        | some m ↦ ok (record l { send_attempts = m })
      ])
      else ok l

  unfoldable pub read_rows :
      KeyMap (Row Bytes) → Ledger → KeyMap Bytes → Outcome (Ledger × KeyMap Bytes)
  read_rows [] l before = ok (l, before)
  read_rows ((k, row) ∷ rows) l before = do
    l₁ ← install_record k row.payload l
    l₂ ← stamp k row.claim l₁
    read_rows rows l₂ (put_row k row.payload before)

  -- `readSubmissionRecordsLocked`
  unfoldable pub read_records : SubmissionScope → Table → Outcome (Session Bytes Table)
  read_records scope table =
      if has_scope scope
      then (elim (sql.select (in_scope scope) table) [
        | none ↦ err Errors.statement_failed
        | some rows ↦ read_rows rows empty_ledger [] >>= λ (l, before).
            ok (record { memory = l; before = before; table = table })
      ])
      else err Errors.no_submission_scope

  -- The records of one thread's entries, under a kind. Go ranges over a map in an order of its own: here the
  -- last entry of the list comes first.
  unfoldable pub records_of {ℓ} :
      {V : Type ℓ}
      → String
      → String
      → (V → Option Bytes)
      → GoMap V
      → KeyMap Bytes
      → Outcome (KeyMap Bytes)
  records_of kind thread encode [] records = ok records
  records_of kind thread encode ((id, value) ∷ entries) records = do
    later ← records_of kind thread encode entries records
    bytes ← or_json (encode value)
    ok (put_row (key kind thread id) bytes later)

  unfoldable pub records_of_table {ℓ} :
      {V : Type ℓ}
      → String
      → (V → Option Bytes)
      → ThreadMap V
      → KeyMap Bytes
      → Outcome (KeyMap Bytes)
  records_of_table kind encode [] records = ok records
  records_of_table kind encode ((thread, entries) ∷ m) records = do
    later ← records_of_table kind encode m records
    records_of kind thread encode entries later

  -- `submissionRecords`
  unfoldable pub submission_records : Ledger → Outcome (KeyMap Bytes)
  submission_records l = do
    a ← records_of_table "attempts" codec.encode_text l.queue_attempts []
    b ← records_of_table "sends" codec.encode_send l.send_attempts a
    c ← records_of_table "deletions" codec.encode_deletion l.queue_deletions b
    records_of "retirements" "" codec.encode_text l.operations c

  -- The first loop of `writeSubmissionRecordsLocked`: what was read and is no record any more.
  unfoldable pub delete_rows : KeyMap Bytes → KeyMap Bytes → Table → Outcome (Unit {0}) × Table
  delete_rows [] records t = (ok tt, t)
  delete_rows ((k, _) ∷ before) records t = elim (row_at k records) [
    | some _ ↦ delete_rows before records t
    | none ↦ then_do (executed (sql.remove_row k t)) (delete_rows before records)
  ]

  -- `c.sendAttempts[key.thread][key.id].admissionID`
  unfoldable pub claim_of : Ledger → SubmissionKey → String
  claim_of l k = elim (find k.thread k.id l.send_attempts) [ none ↦ "" | some a ↦ a.admission_id ]

  -- The row that `writeSubmissionRecord` makes, with the columns it takes from a send's payload.
  unfoldable pub row_of : SubmissionKey → Bytes → String → Outcome (Row Bytes)
  row_of k bytes claim =
      if k.kind == "sends"
      then (or_json (codec.unmarshal_send bytes) >>= λ a. ok (record {
        payload = bytes;
        state = state_name a.state;
        action = a.context;
        has_options = elim a.options [ none ↦ false | some _ ↦ true ];
        claim = claim;
      }))
      else ok
          (record { payload = bytes; state = ""; action = ""; has_options = false; claim = claim })

  unfoldable pub write_record : SubmissionKey → Bytes → String → Table → Outcome (Unit {0}) × Table
  write_record k bytes claim t = elim (row_of k bytes claim) [
    | err e ↦ (err e, t)
    | panic ↦ (panic, t)
    | ok row ↦ executed (sql.upsert k row t)
  ]

  unfoldable pub is_written : KeyMap Bytes → SubmissionKey → Bytes → Bool
  is_written before k bytes = elim (row_at k before) [
    | none ↦ false
    | some old ↦ codec.same_bytes old bytes
  ]

  -- The second loop: the records that are not as they were read.
  unfoldable pub write_rows :
      KeyMap Bytes → KeyMap Bytes → Ledger → Table → Outcome (Unit {0}) × Table
  write_rows [] before l t = (ok tt, t)
  write_rows ((k, bytes) ∷ records) before l t =
      if is_written before k bytes
      then write_rows records before l t
      else then_do (write_record k bytes (claim_of l k) t) (write_rows records before l)

  -- `writeSubmissionRecordsLocked`
  unfoldable pub write_records : Session Bytes Table → Outcome (Unit {0}) × Session Bytes Table
  write_records s = elim (submission_records s.memory) [
    | err e ↦ (err e, s)
    | panic ↦ (panic, s)
    | ok records ↦
        let (result, t) =
          then_do (delete_rows s.before records s.table) (write_rows records s.before s.memory) in
        elim result [
          | err e ↦ (err e, record s { table = t })
          | panic ↦ (panic, record s { table = t })
          | ok _ ↦ (ok tt, record s { table = t; before = records })
        ]
  ]

  -- `submissionTransaction`: every step up to `BEGIN` is its beginning; `commits` is whether `COMMIT` succeeds.
  unfoldable pub submission_transaction {ℓ} :
      {A : Type ℓ}
      → Beginning
      → Bool
      → SubmissionScope
      → (Session Bytes Table → Outcome A × Session Bytes Table)
      → Table
      → Outcome A × Table
  submission_transaction (unavailable e) commits scope action t = (err e, t)
  submission_transaction begun commits scope action t = elim (read_records scope t) [
    | err e ↦ (err e, t)
    | panic ↦ (panic, t)
    | ok s ↦
        let (result, s') = action s in
        elim result [
          | err e ↦ (err e, t)
          | panic ↦ (panic, t)
          | ok a ↦ if commits then (ok a, s'.table) else (err Errors.statement_failed, t)
        ]
  ]

  abbrev only_thread {ℓ} : {V : Type ℓ} → String → ThreadMap V → ThreadMap V
  only_thread thread m = elim (lookup thread m) [
    | none ↦ []
    | some entries ↦ if is_empty entries then [] else (thread, entries) ∷ []
  ]

  -- The action of `ExportSubmissionAttempts`; what it returns is then encoded.
  unfoldable pub export_attempts : String → Session Bytes Table → Ledger
  export_attempts thread s = record {
    queue_attempts = only_thread thread s.memory.queue_attempts;
    send_attempts = only_thread thread s.memory.send_attempts;
    queue_deletions = only_thread thread s.memory.queue_deletions;
    operations = [];
  }

  -- `ExportSubmissionAttempts`, up to the encoding of what it returns.
  unfoldable pub export_submission_attempts :
      Beginning → Bool → String → Table → Outcome Ledger × Table
  export_submission_attempts opening commits thread table =
      if lib.trim_space thread == ""
      then (err Errors.export_without_thread, table)
      else submission_transaction opening commits
          (record { thread = thread; directory = ""; ids = []; all = false })
          (λ s. (ok (export_attempts thread s), s)) table
