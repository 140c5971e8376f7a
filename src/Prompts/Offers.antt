-- ===== src/Prompts/Offers.antt =====
-- The changes of the offers: admission, claims, snoozing, release, the write of a response, and the end
-- of a connection (codex/client.go).
use codex_web.Common.{
  String, ℕ, ◌+◌, Bool, true, false, not, ◌&&◌, ◌||◌, Option, none, some, [], ◌∷◌, ◌==◌, nat_eq,
  if◌then◌else◌,
}
use codex_web.Errors
use codex_web.Errors.{Error, Outcome, ok, err, panic, ◌>>=◌, ◌>>◌, require}
use codex_web.GoMap.{GoMap, lookup, insert, delete}
use codex_web.Prompts.Types.{PendingRequest, Prompt, NonBlockingUserInputPolicy}
use codex_web.Prompts.Normalize.{normalize_prompt, is_user_input}
use codex_web.Prompts.State.{PromptState, request_thread_id, bump_pending, prune_pending_revision}

abbrev pub with_request : PendingRequest → PromptState → PromptState
with_request request s = record s { requests = insert request.id request s.requests }

-- The request was made by the connection that the client has now.
unfoldable pub is_current : PromptState → PendingRequest → Bool
is_current s request =
    nat_eq request.generation s.generation
    && elim s.connection [ none ↦ false | some connection ↦ nat_eq request.connection connection ]

-- `readLoop` gives the request its connection and generation; `token` is fresh (`rand.Text()`).
unfoldable pub admit_prompt : String → PendingRequest → PromptState → Bool × PromptState
admit_prompt token request s =
    let admitted =
      bump_pending (request_thread_id request)
        (with_request (record request { token = token }) s) in
    if is_current s request
    then (elim (lookup request.id s.requests) [
      | none ↦ (true, admitted)
      | some current ↦
          if nat_eq current.generation request.generation then (false, s) else (true, admitted)
    ])
    else (false, s)

unfoldable pub token_fits : String → PendingRequest → Bool
token_fits token request = (token == "") || (request.token == token)

module _ (policy : Option NonBlockingUserInputPolicy) where
  -- `claim`
  unfoldable pub claim :
      String → String → String → PromptState → Outcome (PendingRequest × Prompt) × PromptState
  claim id thread token s = elim (lookup id s.requests) [
    | none ↦ (err Errors.not_pending, s)
    | some request ↦
        if request.claimed
        then (err Errors.not_pending, s)
        else (if is_current s request && token_fits token request
            then (elim (normalize_prompt policy request) [
              | err e ↦ (err e, s)
              | panic ↦ (panic, s)
              | ok prompt ↦
                  if prompt.thread_id == thread
                  then (let taken = record request { claimed = true } in
                      (ok (taken, prompt), bump_pending thread (with_request taken s)))
                  else (err Errors.another_thread, s)
            ])
            else (err Errors.needs_refresh, s))
  ]

  -- `claimAutoResolvableUserInput`
  unfoldable pub claim_auto_resolvable :
      String → String → String → PromptState → Option PendingRequest × PromptState
  claim_auto_resolvable id thread token s = elim (lookup id s.requests) [
    | none ↦ (none, s)
    | some request ↦
        if request.claimed
          || request.snoozed
          || not (request.token == token)
          || not (is_current s request)
        then (none, s)
        else (elim (normalize_prompt policy request) [
          | err e ↦ (none, s)
          | panic ↦ (none, s)
          | ok prompt ↦
              if is_user_input prompt.kind && (prompt.thread_id == thread) && not prompt.is_blocking
              then (let taken = record request { claimed = true } in
                  (some taken, bump_pending thread (with_request taken s)))
              else (none, s)
        ])
  ]

  -- `snoozeUserInput`
  unfoldable pub snooze_user_input :
      String → String → String → PromptState → Outcome (Unit {0}) × PromptState
  snooze_user_input id thread token s = elim (lookup id s.requests) [
    | none ↦ (err Errors.not_pending, s)
    | some request ↦
        if request.claimed
        then (err Errors.not_pending, s)
        else (if is_current s request && token_fits token request
            then (elim (normalize_prompt policy request) [
              | err e ↦ (err e, s)
              | panic ↦ (panic, s)
              | ok prompt ↦
                  if (prompt.thread_id == thread) && is_user_input prompt.kind
                  then (if request.snoozed then (ok tt, s) else (
                    ok tt,
                    bump_pending thread (with_request (record request { snoozed = true }) s),
                  ))
                  else (err Errors.no_auto_resolution, s)
            ])
            else (err Errors.needs_refresh, s))
  ]

-- The request is still the one that the client knows by its identity.
unfoldable pub same_offer : PendingRequest → PendingRequest → Bool
same_offer current request =
    nat_eq current.generation request.generation && (current.token == request.token)

unfoldable pub release_claim : PendingRequest → PromptState → PromptState
release_claim request s = elim (lookup request.id s.requests) [
  | none ↦ s
  | some current ↦
      if same_offer current request
      then bump_pending (request_thread_id request) (record s {
        requests = insert request.id (record current { claimed = false }) s.requests;
      })
      else s
]

-- The loop of `detachConnectionLocked` over the entries of the map, which it deletes from.
unfoldable pub drop_generation :
    ℕ → GoMap PendingRequest → GoMap PendingRequest → GoMap PendingRequest
drop_generation generation [] m = m
drop_generation generation ((id, request) ∷ entries) m =
    drop_generation generation entries
      (if nat_eq request.generation generation then delete id m else m)

-- `detachConnectionLocked`, of the current connection
unfoldable pub detach_connection : ℕ → PromptState → PromptState
detach_connection generation s = record s {
  connection = none;
  requests = drop_generation generation s.requests s.requests;
  pending_sequence = 1 + s.pending_sequence;
  pending_reset = 1 + s.pending_sequence;
  pending_revisions = [];
}

unfoldable pub mark_disconnected : ℕ → ℕ → PromptState → PromptState
mark_disconnected connection generation s = elim s.connection [
  | none ↦ s
  | some current ↦
      if nat_eq current connection && nat_eq s.generation generation
      then detach_connection generation s
      else s
]

-- `Ensure`, where it has dialled a new connection.
unfoldable pub connect : ℕ → PromptState → PromptState
connect connection s = elim s.connection [
  | some _ ↦ s
  | none ↦ record s { connection = some connection; generation = 1 + s.generation }
]

-- How the write of a response goes, once its offer is found: the context ended before it, no writer was
-- had (the context ended, or the connection failed), the connection broke in it, or it was written.
pub data Writing : Type 0 where
  ended : Writing
  no_writer : Bool → Writing
  broke transmitted : Writing

-- `writeOffer`
unfoldable pub write_offer :
    Writing → PendingRequest → PromptState → Outcome (Unit {0}) × PromptState
write_offer writing request s =
    if is_current s request
    then (elim (lookup request.id s.requests) [
      | none ↦ (err Errors.not_pending, s)
      | some current ↦
          if current.claimed
            && same_offer current request
            && nat_eq current.connection request.connection
          then (let handed = record s { written = request.token ∷ s.written } in
              elim writing [
                | ended ↦ (err (Errors.transport Errors.canceled), s)
                | no_writer alive ↦ (
                  err (Errors.unwritten (Errors.transport Errors.canceled)),
                  if alive then mark_disconnected request.connection request.generation s else s,
                )
                | broke ↦ (
                  err (Errors.transport Errors.canceled),
                  mark_disconnected request.connection request.generation handed,
                )
                | transmitted ↦ (
                  ok tt,
                  bump_pending (request_thread_id request)
                      (record handed { requests = delete request.id s.requests }),
                )
              ])
          else (err Errors.not_pending, s)
    ])
    else (err (Errors.transport Errors.connection_changed), s)

-- `finishResponse`; `encodes` is whether the request's identity and the response encode.
unfoldable pub finish_response :
    Bool → Bool → Writing → PendingRequest → PromptState → Outcome (Unit {0}) × PromptState
finish_response observer encodes writing request s =
    if observer
    then (err Errors.observer_answers, s)
    else (if encodes
        then (let (result, s') = write_offer writing request s in
            elim result [
              | err e ↦ (err e, release_claim request s')
              | panic ↦ (panic, s')
              | ok _ ↦ (ok tt, prune_pending_revision (request_thread_id request) s')
            ])
        else (err Errors.invalid_request_id, release_claim request s))

-- `handleResolved`: where the request is not there, Go compares the generation of a zero request.
unfoldable pub handle_resolved : String → ℕ → PromptState → PromptState
handle_resolved id generation s = elim (lookup id s.requests) [
  | none ↦ prune_pending_revision "" s
  | some request ↦ prune_pending_revision (request_thread_id request) (
      if nat_eq request.generation generation
      then bump_pending (request_thread_id request) (record s { requests = delete id s.requests })
      else s)
]
