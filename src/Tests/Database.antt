-- ===== src/Tests/Database.antt =====
-- The submission database on a table of rows in memory, with payloads that are the values themselves.
use codex_web.Common.{
  String, ◌≡◌, refl, sym, ap, ◌∙◌, subst, Bool, true, false, Option, none, some, [], ◌∷◌, arith,
  ◌==◌, eq_iff, if◌then◌else◌, Bool-cases, inl, inr,
}
use codex_web.GoMap.{lookup, insert, delete}
use codex_web.ThreadMap.{find, ensure, assign}
use codex_web.TurnOptions
use codex_web.Ledger.Types.{SendAttempt, QueueDeletionAttempt, Ledger, empty_ledger, submitting}
use codex_web.Ledger.Load
use codex_web.Database.Session.{begun}
use codex_web.Database.Keys.{
  SubmissionKey, key, same_key, KeyMap, row_at, drop_row, put_row, IsMap, row_at-drop_row,
  row_at-put_row, IsMap-put_row, same_key_sound,
}
use codex_web.Database.Rows
use codex_web.Database.Rows.{SubmissionScope, in_scope, Row, Sql, Codec}
use codex_web.Database.Session
use codex_web.Database.Session.{Session, submission_transaction, read_records, stored_attempt}
use codex_web.Database.Durable.{Refines, change_and_write, submission_transaction-Refines}
use codex_web.Database.Recovered.{read_records-written}
use codex_web.Tests.{toy, attempt, holding}

data Payload : Type 0 where
  text : String → Payload
  send : SendAttempt → Payload
  deletion : QueueDeletionAttempt → Payload

as_text : Payload → Option String
as_text (text s) = some s
as_text _ = none

as_send : Payload → Option SendAttempt
as_send (send a) = some a
as_send _ = none

as_deletion : Payload → Option QueueDeletionAttempt
as_deletion (deletion a) = some a
as_deletion _ = none

same_payload : Payload → Payload → Bool
same_payload (text a) (text b) = a == b
same_payload _ _ = false

same_payload_sound : (a b : Payload) → same_payload a b ≡ true → a ≡ b
unfolding same_payload
same_payload_sound (text a) (text b) h = ap text (ground (arith, h, eq_iff a b))
same_payload_sound (text a) (send b) h = absurd (ground (arith, h))
same_payload_sound (text a) (deletion b) h = absurd (ground (arith, h))
same_payload_sound (send a) b h = absurd (ground (arith, h))
same_payload_sound (deletion a) b h = absurd (ground (arith, h))

codec : Codec Payload
unfolding as_send
codec = record {
  encode_text = λ s. some (text s);
  encode_send = λ a. some (send (record a { admission_id = "" }));
  encode_deletion = λ a. some (deletion a);
  decode_text = as_text;
  decode_send = as_send;
  decode_deletion = as_deletion;
  unmarshal_send = as_send;
  same_bytes = same_payload;
  decode-encode_send = λ a b h.
      ap (λ o. elim o as (λ _. Option SendAttempt) [ none ↦ none | some x ↦ as_send x ]) (sym h);
  same_bytes_sound = same_payload_sound;
}

abbrev Table : Type 0
Table = KeyMap (Row Payload)

selected : (SubmissionKey → Bool) → Table → Table
selected p [] = []
selected p ((k, row) ∷ t) = if p k then put_row k row (selected p t) else selected p t

selected-IsMap : (p : SubmissionKey → Bool) (t : Table) → IsMap (selected p t)
unfolding selected IsMap
selected-IsMap p [] = tt
selected-IsMap p ((k, row) ∷ t) = elim (Bool-cases (p k)) [
  | inl hit ↦ rw hit (IsMap-put_row k row (selected p t) (selected-IsMap p t))
  | inr miss ↦ rw miss (selected-IsMap p t)
]

row_at-selected :
    (p : SubmissionKey → Bool) (t : Table) (k : SubmissionKey)
    → row_at k (selected p t) ≡ (if p k then row_at k t else none)
unfolding selected row_at
row_at-selected p [] k = ground arith
row_at-selected p ((j, row) ∷ t) k = elim (Bool-cases (same_key j k)) [
  | inl hit ↦
      let own = ap p (same_key_sound j k hit) in
      ground (arith, hit, own, row_at-selected p t k, row_at-put_row j k row (selected p t))
  | inr miss ↦ ground (arith, miss, row_at-selected p t k, row_at-put_row j k row (selected p t))
]

sql : Sql Payload Table
sql = record {
  fetch = row_at;
  remove_row = λ k t. (true, drop_row k t);
  upsert = λ k row t. (true, put_row k row t);
  select = λ p t. some (selected p t);
  fetch-remove_row = λ k j t h. row_at-drop_row k j t;
  fetch-upsert = λ k j row t h. row_at-put_row k j row t;
  select-IsMap = λ p t rows h.
      let same : selected p t ≡ rows = ground (arith, h) in subst IsMap same (selected-IsMap p t);
  row_at-select = λ p t rows h k.
      let same : selected p t ≡ rows = ground (arith, h) in
      ap (row_at k) (sym same) ∙ row_at-selected p t k;
}

abbrev thread_scope : SubmissionScope
thread_scope = record { thread = "t"; directory = ""; ids = []; all = false }

-- The maps with one claimed send.
abbrev sending : Ledger → Ledger
sending _ = holding (record attempt { state = submitting; admission_id = "claim" })

abbrev no_session : Session Payload Table
no_session = record { memory = empty_ledger; before = []; table = [] }

program : Unit {0}
unfolding lookup insert delete find ensure assign same_key row_at drop_row put_row Rows.contains
    Rows.in_scope Rows.has_scope Session.put_entry Session.state_name Session.install_queue
    Session.check_send Session.stored_attempt Session.install_send Session.install_deletion
    Session.install_retirement Session.install_record Session.stamp Session.read_rows
    Session.read_records Session.records_of Session.records_of_table Session.submission_records
    Session.delete_rows Session.claim_of Session.row_of Session.write_record Session.is_written
    Session.write_rows Session.write_records Session.submission_transaction
    Load.valid_submission_digest Load.valid_send_attempt_state Load.valid_send_state
    Load.options_have_digest TurnOptions.zero_turn_options_digest
    TurnOptions.effective_turn_options_digest TurnOptions.persisted_turn_options_digest as_text
    as_send as_deletion same_payload codec selected sql
program = tt

submission_transaction-Refines_example : Refines toy codec sql thread_scope sending [] (
    submission_transaction toy codec sql begun true thread_scope
      (change_and_write toy codec sql sending)
      [])
submission_transaction-Refines_example =
    submission_transaction-Refines toy codec sql begun true thread_scope sending []

-- The row that the transaction leaves.
abbrev sent : Table
sent =
    (submission_transaction toy codec sql begun true thread_scope
      (change_and_write toy codec sql sending) []).1

written_test :
    row_at (key "sends" "t" "c") sent
    ≡ some (record {
      payload = send (record attempt { state = submitting });
      state = "submitting";
      action = "";
      has_options = false;
      claim = "claim";
    })
unfolding program
written_test = refl

abbrev read_again : Session Payload Table
read_again = record {
  memory = holding (record attempt { state = submitting; admission_id = "claim" });
  before = (key "sends" "t" "c", send (record attempt { state = submitting })) ∷ [];
  table = sent;
}

read_records-written_example :
    find "t" "c" read_again.memory.send_attempts
    ≡ some (
        stored_attempt toy codec sql
          (record attempt { state = submitting; admission_id = "claim" }))
unfolding program
read_records-written_example =
    read_records-written toy codec sql begun true thread_scope thread_scope sending [] no_session
      read_again "t" "c" (record attempt { state = submitting; admission_id = "claim" }) refl refl
      refl (λ old h. absurd (ground (arith, h))) refl refl
