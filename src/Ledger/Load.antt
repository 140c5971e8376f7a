-- ===== src/Ledger/Load.antt =====
-- Opening a ledger: the checks of `loadQueueLedgerLockedContext` (codex/client.go) on the decoded file,
-- and the transaction around an action (`queueLedgerTransaction`). Two files' worth of locking and
-- decoding is one outcome, `Opening`; a ledger that is not there yet is `empty_ledger`.
use Prim.Native.String.{len}
use Prim.Native.Char.{code}
use codex_web.Common.{
  String, Bool, true, false, not, ◌&&◌, ◌||◌, Option, none, some, [], ◌∷◌, leb, nat_eq, ◌==◌,
  if◌then◌else◌,
}
use codex_web.Errors
use codex_web.Errors.{Error, Outcome, ok, err, panic, ◌>>=◌, ◌>>◌, require}
use codex_web.GoMap.{GoMap}
use codex_web.Library.{Library}
use codex_web.ThreadMap.{ThreadMap}
use codex_web.TurnOptions.{
  TurnOptions, normalize_turn_options, zero_turn_options_digest, effective_turn_options_digest,
  is_abs,
}
use codex_web.Ledger.Types.{
  SendState, prepared, submitting, accepted, other, SendAttempt, QueueDeletionAttempt, Ledger,
  WriteOutcome, written, not_written, unsynced, Action,
}

all_hex : String → Bool
all_hex String.[] = true
all_hex (String.◌∷◌ c s) =
    ((leb b'0' (code c) && leb (code c) b'9') || (leb b'a' (code c) && leb (code c) b'f'))
    && all_hex s

unfoldable pub valid_submission_digest : String → Bool
unfolding all_hex
valid_submission_digest digest = nat_eq (len digest) 64 && all_hex digest

unfoldable pub valid_send_state : SendState → String → Bool
valid_send_state prepared turn = turn == ""
valid_send_state submitting turn = turn == ""
valid_send_state accepted turn = not (turn == "")
valid_send_state (other _) turn = false

unfoldable pub valid_send_attempt_state : SendAttempt → Bool
valid_send_attempt_state attempt = valid_send_state attempt.state attempt.turn_id

-- Every key of a thread's map and its value pass the test.
unfoldable pub all_entries {ℓ} : {V : Type ℓ} → (String → V → Bool) → GoMap V → Bool
all_entries p [] = true
all_entries p ((k, v) ∷ m) = p k v && all_entries p m

unfoldable pub valid_queue_attempt : String → String → Bool
valid_queue_attempt client digest = not (client == "") && valid_submission_digest digest

unfoldable pub valid_deletion_attempt : String → QueueDeletionAttempt → Bool
valid_deletion_attempt queued_id attempt =
    not (queued_id == "")
    && not (attempt.client_user_message_id == "")
    && valid_submission_digest attempt.digest

unfoldable pub valid_operation : String → String → Bool
valid_operation directory thread = is_abs directory && not (thread == "")

-- The loop over one table: `bad_thread` for a thread with no name, `bad_entry` for a bad entry.
unfoldable pub check_table {ℓ} :
    {V : Type ℓ} → (String → V → Bool) → Error → Error → ThreadMap V → Outcome (Unit {0})
check_table p bad_thread bad_entry [] = ok tt
check_table p bad_thread bad_entry ((thread, entries) ∷ m) =
    let rest = check_table p bad_thread bad_entry m in
    do require (not (thread == "")) bad_thread; require (all_entries p entries) bad_entry; rest

unfoldable pub check_operations : GoMap String → Outcome (Unit {0})
check_operations m = require (all_entries valid_operation m) Errors.invalid_operation_marker

unfoldable pub map_entries {ℓ} : {V : Type ℓ} → (V → V) → GoMap V → GoMap V
map_entries f [] = []
map_entries f ((k, v) ∷ m) = (k, f v) ∷ map_entries f m

-- How opening the ledger ends before its content is looked at. `migrated` is a ledger that is read from its earlier
-- path: once checked, it is written to its own path, and the write ends so.
pub data Opening : Type 0 where
  opened : Opening
  migrated : WriteOutcome → Opening
  refused : Error → Opening

module _ (lib : Library) where
  unfoldable pub options_have_digest : Option TurnOptions → String → Bool
  options_have_digest none digest = true
  options_have_digest (some options) digest = elim (normalize_turn_options lib options) [
    | ok stored ↦ stored.digest == digest
    | err _ ↦ false
    | panic ↦ false
  ]

  unfoldable pub valid_send_attempt : String → SendAttempt → Bool
  valid_send_attempt client attempt =
      not (client == "")
      && valid_submission_digest attempt.digest
      && valid_submission_digest (effective_turn_options_digest lib attempt.options_digest)
      && valid_send_attempt_state attempt

  unfoldable pub valid_send_options : SendAttempt → Bool
  valid_send_options attempt =
      options_have_digest attempt.options (effective_turn_options_digest lib attempt.options_digest)

  -- The loops over the sends, of a thread and of all.
  unfoldable pub check_attempts : GoMap SendAttempt → Outcome (Unit {0})
  check_attempts [] = ok tt
  check_attempts ((client, attempt) ∷ attempts) =
      let rest = check_attempts attempts in
      do
        require (valid_send_attempt client attempt) Errors.invalid_send_attempt
        require (valid_send_options attempt) Errors.invalid_send_options
        rest

  unfoldable pub check_sends : ThreadMap SendAttempt → Outcome (Unit {0})
  check_sends [] = ok tt
  check_sends ((thread, attempts) ∷ m) =
      let checked = check_attempts attempts in
      let rest = check_sends m in
      do require (not (thread == "")) Errors.invalid_send_thread; checked; rest

  -- What the decoder of the file gives: the claim is not a JSON field, and the digest of no options
  -- is read as an omitted one.
  unfoldable pub read_attempt : SendAttempt → SendAttempt
  read_attempt attempt = record attempt {
    admission_id = "";
    options_digest =
        if attempt.options_digest == zero_turn_options_digest lib
        then ""
        else attempt.options_digest;
  }

  unfoldable pub load_queue_ledger : Ledger → Outcome Ledger
  load_queue_ledger l = do
    check_table valid_queue_attempt Errors.invalid_thread Errors.invalid_attempt l.queue_attempts
    check_sends l.send_attempts
    check_table valid_deletion_attempt Errors.invalid_deletion_thread
        Errors.invalid_deletion_attempt l.queue_deletions
    check_operations l.operations
    ok (record l { send_attempts = map_entries (map_entries read_attempt) l.send_attempts })

  -- The action on a ledger that was loaded.
  abbrev acted {ℓ} : {A : Type ℓ} → WriteOutcome → Action A → Ledger → Ledger → Outcome A × Ledger
  acted w action l durable =
      let (result, s) = action w (record { memory = l; durable = durable }) in (result, s.durable)

  -- One transaction: the ledger it finds, its result and the ledger it leaves.
  unfoldable pub queue_ledger_transaction {ℓ} :
      {A : Type ℓ} → Opening → WriteOutcome → Action A → Ledger → Outcome A × Ledger
  unfolding load_queue_ledger
  queue_ledger_transaction (refused e) w action durable = (err e, durable)
  queue_ledger_transaction opened w action durable = elim (load_queue_ledger durable) [
    | err e ↦ (err e, durable)
    | panic ↦ (panic, durable)
    | ok l ↦ acted w action l durable
  ]
  queue_ledger_transaction (migrated written) w action durable = elim (load_queue_ledger durable) [
    | err e ↦ (err e, durable)
    | panic ↦ (panic, durable)
    | ok l ↦ acted w action l l
  ]
  queue_ledger_transaction (migrated not_written) w action durable =
      elim (load_queue_ledger durable) [
        | err e ↦ (err e, durable)
        | panic ↦ (panic, durable)
        | ok l ↦ (err Errors.write_failed, durable)
      ]
  queue_ledger_transaction (migrated unsynced) w action durable = elim (load_queue_ledger durable) [
    | err e ↦ (err e, durable)
    | panic ↦ (panic, durable)
    | ok l ↦ (err Errors.write_failed, l)
  ]
