-- ===== src/Errors.antt =====
-- The errors of the modelled code, one constructor for each message it makes or wraps (codex/client.go,
-- codex/send_delivery.go), and the outcome of a Go call that returns a value, an error, or panics.
use codex_web.Common.{◌≡◌, refl, ◌⊎◌, inl, inr, Bool, true, false, String, ℕ}

-- The codes of an `rpcCallError` that the client tells apart: -32600, -32601, -32602 and the others.
pub data RefusalCode : Type 0 where
  invalid_request method_not_found invalid_params other_code : RefusalCode

pub data Error : Type 0 where
  -- opening a transaction: the client is closed, or its lock cannot be taken
  client_closed lock_failed : Error
  -- what the loader refuses
  invalid_thread invalid_attempt invalid_send_thread invalid_send_attempt invalid_send_options :
      Error
  invalid_deletion_thread invalid_deletion_attempt invalid_operation_marker : Error
  -- what the writer reports
  write_failed : Error
  -- the operations on attempts
  text_reused reconcile_before_queueing identity_reused receipt_mismatch options_unavailable : Error
  attempt_disappeared identity_changed_before_write admission_changed : Error
  accepted_by_another_turn accepted_before_submission rejected_attempt_changed : Error
  invalid_ack_digest changed_during_ack deletion_identity_changed deletion_bound_elsewhere : Error
  directory_not_canonical operation_without_thread directory_bound_elsewhere : Error
  cleanup_without_thread key_bound_elsewhere compaction_without_prefix : Error
  -- turn options
  invalid_instructions invalid_sandbox invalid_approval invalid_mcp_name invalid_mcp_command : Error
  invalid_mcp_arg_count invalid_mcp_arg invalid_scalar too_many_context_entries : Error
  invalid_context_source invalid_context_kind invalid_context_value context_too_large : Error
  -- what the App Server's lists may have wrong
  no_data invalid_item repeated_item invalid_submission repeated_submission : Error
  empty_cursor repeated_cursor : Error
  invalid_content invalid_input no_turn_identity queued_text_reused : Error
  -- the end of the caller's context
  canceled deadline_exceeded : Error
  -- an error of SQLite with its result code, a refusal of the App Server with its code, and any other
  -- error that comes from outside
  sqlite : ℕ → Error
  refusal : RefusalCode → Error
  foreign : String → Error
  -- delivery
  queued_outcome_unknown not_in_history state_changed wrong_turn no_turn : Error
  deletion_not_accepted queue_entry_not_found queue_entry_unnamed queue_entry_changed : Error
  started_before_deletion not_first invalid_turn add_outcome_unknown invalid_submission_reply :
      Error
  -- the requests of the App Server and their answers
  invalid_option question_without_text repeated_question invalid_question no_questions : Error
  invalid_is_blocking invalid_auto_resolution unsupported_method invalid_params_json : Error
  request_without_thread another_thread no_auto_resolution not_pending needs_refresh : Error
  answers_do_not_match invalid_answer blank_answer needs_free_form not_offered invalid_note : Error
  decision_not_offered item_unavailable no_decision no_answers choose_one observer_answers : Error
  invalid_request_id connection_changed : Error
  -- the submission database
  no_attempt_identity invalid_queued_submission invalid_stored_send invalid_stored_options : Error
  invalid_deletion_intent invalid_retirement_marker unknown_record_kind no_submission_scope : Error
  export_without_thread json_failed statement_failed : Error
  -- transcript pages
  cursor_invalid cursor_expired reset_required continuation_too_large rollout_unreadable : Error
  turn_without_identity invalid_turn_error invalid_page_cursor page_without_progress : Error
  invalid_page repeated_turn invalid_page_item : Error
  -- `TransportError`, `unwrittenWriteError`, `UnknownSendOutcomeError`, and `fmt.Errorf` with `%w`
  transport unwritten unknown_outcome wrapping : Error → Error
  -- `MessageNotSentError` with its `Retryable`
  not_sent : Error → Bool → Error
  -- `errors.Join`
  joined : Error → Error → Error

pub data Outcome {ℓ} (A : Type ℓ) : Type ℓ where
  ok : A → Outcome A
  err : Error → Outcome A
  panic : Outcome A

infixl 5 ◌>>=◌ ◌>>◌
abbrev pub ◌>>=◌ {ℓ κ} : {A : Type ℓ} {B : Type κ} → Outcome A → (A → Outcome B) → Outcome B
ok a >>= f = f a
err e >>= f = err e
panic >>= f = panic

abbrev pub ◌>>◌ {ℓ} : {B : Type ℓ} → Outcome (Unit {0}) → Outcome B → Outcome B
m >> k = m >>= λ _. k

-- `if !condition { return err }`
abbrev pub require : Bool → Error → Outcome (Unit {0})
require true e = ok tt
require false e = err e

-- To split on a computed outcome and keep the equation.
pub Outcome-cases {ℓ} :
    {A : Type ℓ} (r : Outcome A)
    → ((a : A) × (r ≡ ok a)) ⊎ (((e : Error) × (r ≡ err e)) ⊎ (r ≡ panic))
Outcome-cases (ok a) = inl (a, refl)
Outcome-cases (err e) = inr (inl (e, refl))
Outcome-cases panic = inr (inr refl)
