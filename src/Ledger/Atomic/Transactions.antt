-- ===== src/Ledger/Atomic/Transactions.antt =====
-- What an error leaves behind, for whole transactions (`queueLedgerTransaction` of codex/client.go): the
-- loader's checks give what the actions rely on.
use codex_web.Common.{
  String, ◌≡◌, ◌≢◌, ap, ◌∙◌, sym, Bool, true, some, [], ◌∷◌, arith, ◌==◌, eq_iff, inl, inr,
  Bool-cases,
}
use codex_web.Errors
use codex_web.Errors.{Error, Outcome, ok, err, panic, Outcome-cases, require, ◌>>=◌, ◌>>◌}
use codex_web.GoMap.{GoMap, lookup}
use codex_web.Library.{Library}
use codex_web.ThreadMap.{ThreadMap}
use codex_web.Ledger.Types.{
  SendAttempt, Ledger, Store, WriteOutcome, written, not_written, unsynced,
}
use codex_web.Ledger.Load.{
  Opening, opened, migrated, refused, all_entries, valid_queue_attempt, check_attempts, check_sends,
  valid_deletion_attempt, valid_operation, check_table, check_operations, load_queue_ledger,
  queue_ledger_transaction,
}
use codex_web.Ledger.Requests.{Request, perform}
use codex_web.Ledger.Atomic.{Same, IsAtomic}
use codex_web.Ledger.Atomic.Cleanup.{NoBlankOperation}
use codex_web.Ledger.Atomic.Requests.{perform-IsAtomic}

all_entries-lookup :
    {V : Type 0} (p : String → V → Bool) (k : String) (v : V) (m : GoMap V)
    → all_entries p m ≡ true
    → lookup k m ≡ some v
    → p k v ≡ true
unfolding all_entries lookup
all_entries-lookup p k v [] all found = absurd (ground arith)
all_entries-lookup p k v ((j, x) ∷ m) all found = elim (Bool-cases (p j x)) [
  | inr bad ↦ absurd (ground (arith, bad))
  | inl good ↦ elim (Bool-cases (j == k)) [
    | inl hit ↦
        let same_key : j ≡ k = ground (arith, hit, eq_iff j k) in
        let same : x ≡ v = ground (arith, hit) in
        ap (λ i. p i v) (sym same_key) ∙ (ap (λ y. p j y) (sym same) ∙ good)
    | inr miss ↦ all_entries-lookup p k v m (ground (arith, good)) (ground (arith, miss))
  ]
]

check_table-no_panic :
    {V : Type 0} (p : String → V → Bool) (e f : Error) (m : ThreadMap V)
    → check_table p e f m ≢ panic
unfolding check_table
check_table-no_panic p e f [] h = ground arith
check_table-no_panic p e f ((t, entries) ∷ m) h = ground (arith, check_table-no_panic p e f m)

module _ (lib : Library) where
  check_attempts-no_panic : (m : GoMap SendAttempt) → check_attempts lib m ≢ panic
  unfolding check_attempts
  check_attempts-no_panic [] h = ground arith
  check_attempts-no_panic ((c, attempt) ∷ m) h = ground (arith, check_attempts-no_panic m)

  check_sends-no_panic : (m : ThreadMap SendAttempt) → check_sends lib m ≢ panic
  unfolding check_sends
  check_sends-no_panic [] h = ground arith
  check_sends-no_panic ((t, attempts) ∷ m) h =
      ground (arith, check_sends-no_panic m, check_attempts-no_panic attempts)

  load-no_panic : (l : Ledger) → load_queue_ledger lib l ≢ panic
  unfolding load_queue_ledger check_operations
  load-no_panic l h = ground (
    arith,
    check_table-no_panic valid_queue_attempt Errors.invalid_thread Errors.invalid_attempt
        l.queue_attempts,
    check_sends-no_panic l.send_attempts,
    check_table-no_panic valid_deletion_attempt Errors.invalid_deletion_thread
        Errors.invalid_deletion_attempt l.queue_deletions,
  )

  -- The loader refuses a directory that is bound to the empty thread.
  load-NoBlankOperation : (l l' : Ledger) → load_queue_ledger lib l ≡ ok l' → NoBlankOperation l'
  unfolding load_queue_ledger check_operations valid_operation
  load-NoBlankOperation l l' h k found =
      let checked : all_entries valid_operation l.operations ≡ true = ground arith in
      let same : l.operations ≡ l'.operations = ground arith in
      let valid =
        all_entries-lookup valid_operation k "" l.operations checked (ap (lookup k) same ∙ found) in
      ground (arith, valid)

  module _ (w : WriteOutcome) (request : Request) where
    -- The action within its transaction: the store that it works on, and how it ends there.
    loaded_IsAtomic :
        (l l' durable : Ledger)
        → load_queue_ledger lib l ≡ ok l'
        → IsAtomic w
            (record { memory = l'; durable = durable })
            (perform lib request w (record { memory = l'; durable = durable }))
    loaded_IsAtomic l l' durable h =
        perform-IsAtomic lib w (record { memory = l'; durable = durable }) request
          (load-NoBlankOperation l l' h)

    abbrev pub requested : Opening → Ledger → Outcome (Unit {0}) × Ledger
    requested opening l = queue_ledger_transaction lib opening w (perform lib request) l

    -- No transaction assigns into a nil map, whatever it is asked, on whatever ledger, and however its
    -- write ends.
    pub transaction-no_panic : (opening : Opening) (l : Ledger) → (requested opening l).0 ≢ panic
    unfolding queue_ledger_transaction
    transaction-no_panic (refused e) l h = ground arith
    transaction-no_panic opened l h = elim (Outcome-cases (load_queue_ledger lib l)) [
      | inl (l', e) ↦ (loaded_IsAtomic l l' l e).no_panic (ground (arith, e))
      | inr (inl (x, e)) ↦ ground (arith, e)
      | inr (inr e) ↦ load-no_panic l e
    ]
    transaction-no_panic (migrated written) l h = elim (Outcome-cases (load_queue_ledger lib l)) [
      | inl (l', e) ↦ (loaded_IsAtomic l l' l' e).no_panic (ground (arith, e))
      | inr (inl (x, e)) ↦ ground (arith, e)
      | inr (inr e) ↦ load-no_panic l e
    ]
    transaction-no_panic (migrated not_written) l h = ground (arith, load-no_panic l)
    transaction-no_panic (migrated unsynced) l h = ground (arith, load-no_panic l)

-- After a failed write the client's maps answer every lookup as before, whatever was asked: on maps that
-- bind no directory to the empty thread.
pub perform-undone :
    (lib : Library) (w : WriteOutcome) (s : Store) (request : Request)
    → NoBlankOperation s.memory
    → (perform lib request w s).0 ≡ err Errors.write_failed
    → Same (perform lib request w s).1.memory s.memory
perform-undone lib w s request full failed = (perform-IsAtomic lib w s request full).undone failed
