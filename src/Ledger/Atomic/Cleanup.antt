-- ===== src/Ledger/Atomic/Cleanup.antt =====
-- Atomicity of the actions that retire records (codex/client.go).

use codex_web.Common.{
  String, ◌≡◌, ◌≢◌, refl, ap, ◌∙◌, inl, inr, ◌&&◌, Option, some, List, [], ◌∷◌, arith, ◌==◌, eq_iff,
  if◌then◌else◌, Option-cases,
}
use codex_web.Errors
use codex_web.Errors.{Error, Outcome, ok, err, panic, ◌>>=◌}
use codex_web.GoMap.{GoMap, lookup, insert, delete, lookup-insert, lookup-delete}
use codex_web.ThreadMap.{
  ThreadMap, find, ensure, assign, remove, prune, find-ensure, assign-ensure, find-assign,
  find-remove, find-prune, assign-assign,
}
use codex_web.Ledger.Types.{SendAttempt, Ledger, Store, WriteOutcome, with_sends, with_operations}
use codex_web.Ledger.Sends.{sends_of}
use codex_web.Ledger.Cleanup.{
  SendAcknowledgement, AckPlan, text_at, remove_proven, put_back_all, after_removal, release_proven,
  plan_acknowledgements, record_thread_operation_attempt, restore_key,
  clear_retired_thread_attempts, clear_conversation_attempts, plan_loop, plan_acknowledgement,
  empty_plan,
}
use codex_web.Ledger.Atomic.{Same, IsAtomic, IsAtomic-ok, IsAtomic-err, IsAtomic-finish}

module _ {V : Type 0} (k : String) (m : GoMap V) where
  -- What was deleted is put back.
  lookup-restore_key :
      (j : String) → lookup j (restore_key k (lookup k m) (delete k m)) ≡ lookup j m
  unfolding restore_key
  lookup-restore_key j = elim (Option-cases (lookup k m)) [
    | inl e ↦ ground (arith, lookup-delete k j m, eq_iff k j)
    | inr (v, e) ↦ ground (arith, lookup-insert k j v (delete k m), lookup-delete k j m, eq_iff k j)
  ]

find-restore_key :
    {V : Type 0} (t : String) (m : ThreadMap V) (u d : String)
    → find u d (restore_key t (lookup t m) (delete t m)) ≡ find u d m
unfolding find
find-restore_key t m u d = rw (find, lookup-restore_key t m u)

module _ (w : WriteOutcome) (s : Store) (t : String) where
  pub clear_retired_thread_attempts-IsAtomic : IsAtomic w s (clear_retired_thread_attempts t w s)
  unfolding clear_retired_thread_attempts
  clear_retired_thread_attempts-IsAtomic =
      let l = s.memory in
      let undo : Ledger = record l {
        queue_attempts = restore_key t (lookup t l.queue_attempts) (delete t l.queue_attempts);
        send_attempts = restore_key t (lookup t l.send_attempts) (delete t l.send_attempts);
        queue_deletions = restore_key t (lookup t l.queue_deletions) (delete t l.queue_deletions);
      } in
      let kept : Same undo l = record {
        queue = find-restore_key t l.queue_attempts;
        sends = find-restore_key t l.send_attempts;
        deletions = find-restore_key t l.queue_deletions;
        operations = λ k. refl;
      } in
      let cleared : Ledger = record l {
        queue_attempts = delete t l.queue_attempts;
        send_attempts = delete t l.send_attempts;
        queue_deletions = delete t l.queue_deletions;
      } in
      ground (
        arith,
        IsAtomic-finish {0} w s (record s { memory = cleared }) (some undo) undo (tt {0}) refl refl
            kept,
      )

  pub clear_conversation_attempts-IsAtomic :
      (directory : String) → IsAtomic w s (clear_conversation_attempts t directory w s)
  unfolding clear_conversation_attempts
  clear_conversation_attempts-IsAtomic directory =
      let l = s.memory in
      let undo : Ledger = record {
        queue_attempts = restore_key t (lookup t l.queue_attempts) (delete t l.queue_attempts);
        send_attempts = restore_key t (lookup t l.send_attempts) (delete t l.send_attempts);
        queue_deletions = restore_key t (lookup t l.queue_deletions) (delete t l.queue_deletions);
        operations =
            restore_key directory (lookup directory l.operations) (delete directory l.operations);
      } in
      let kept : Same undo l = record {
        queue = find-restore_key t l.queue_attempts;
        sends = find-restore_key t l.send_attempts;
        deletions = find-restore_key t l.queue_deletions;
        operations = lookup-restore_key directory l.operations;
      } in
      let cleared : Ledger = record {
        queue_attempts = delete t l.queue_attempts;
        send_attempts = delete t l.send_attempts;
        queue_deletions = delete t l.queue_deletions;
        operations = delete directory l.operations;
      } in
      ground (
        arith,
        IsAtomic-finish {0} w s (record s { memory = cleared }) (some undo) undo (tt {0}) refl refl
            kept,
      )

-- No directory is bound to the empty thread, as the loader demands.
abbrev pub NoBlankOperation : Ledger → Type 0
NoBlankOperation l = (k : String) → lookup k l.operations ≢ some ""

pub record_thread_operation_attempt-IsAtomic :
    (w : WriteOutcome) (s : Store) (directory t : String)
    → NoBlankOperation s.memory
    → IsAtomic w s (record_thread_operation_attempt directory t w s)
unfolding record_thread_operation_attempt text_at
record_thread_operation_attempt-IsAtomic w s directory t full =
    let m = s.memory.operations in
    elim (Option-cases (lookup directory m)) [
      | inl e ↦
          let undo : Ledger = record s.memory {
            operations = delete directory (insert directory t m);
          } in
          let kept : Same undo s.memory = record {
            queue = λ u d. refl;
            sends = λ u d. refl;
            deletions = λ u d. refl;
            operations = λ k. ground (
              arith,
              lookup-delete directory k (insert directory t m),
              lookup-insert directory k t m,
              eq_iff directory k,
            );
          } in
          ground (
            arith,
            IsAtomic-finish {0} w s (with_operations s (insert directory t m)) (some undo) undo
                (tt {0}) refl refl kept,
          )
      | inr (old, e) ↦ ground (arith, eq_iff old "", full directory)
    ]

-- A step that can refuse, and neither panics nor reports a write.
abbrev Refuses {ℓ} : {A : Type ℓ} → Outcome A → Type ℓ
Refuses r = (r ≢ panic) × (r ≢ err Errors.write_failed)

Refuses-bind {ℓ} :
    {A B : Type ℓ} (m : Outcome A) (f : A → Outcome B)
    → Refuses m
    → ((a : A) → Refuses (f a))
    → Refuses (m >>= f)
Refuses-bind (ok a) f h k = k a
Refuses-bind (err e) f h k = ground arith
Refuses-bind panic f h k = absurd (h.0 refl)

plan_acknowledgement-Refuses :
    (t : String) (a : SendAcknowledgement) (plan : AckPlan) (l : Ledger)
    → Refuses (plan_acknowledgement t a plan l)
unfolding plan_acknowledgement
plan_acknowledgement-Refuses t a plan l = ground arith

plan_loop-Refuses :
    (t : String) (acks : List SendAcknowledgement) (plan : AckPlan) (l : Ledger)
    → Refuses (plan_loop t acks plan l)
unfolding plan_loop
plan_loop-Refuses t [] plan l = ground arith
plan_loop-Refuses t (a ∷ rest) plan l =
    Refuses-bind (plan_acknowledgement t a plan l) (λ plan'. plan_loop t rest plan' l)
      (plan_acknowledgement-Refuses t a plan l) (λ plan'. plan_loop-Refuses t rest plan' l)

pub plan_acknowledgements-IsAtomic :
    (w : WriteOutcome) (s : Store) (t : String) (acks : List SendAcknowledgement)
    → IsAtomic w s (plan_acknowledgements t acks w s)
unfolding plan_acknowledgements
plan_acknowledgements-IsAtomic w s t acks =
    ground (arith, plan_loop-Refuses t acks empty_plan s.memory)

-- What a lookup finds once the removed attempts are put back.
overlay :
    String → List (String × SendAttempt) → String → String → Option SendAttempt → Option SendAttempt
overlay t [] u d x = x
overlay t ((c, a) ∷ rest) u d x = overlay t rest u d (if t == u && c == d then some a else x)

module _ (t : String) where
  put_back_all-find :
      (removed : List (String × SendAttempt)) (m m' : ThreadMap SendAttempt) (u d : String)
      → put_back_all t removed m ≡ some m'
      → find u d m' ≡ overlay t removed u d (find u d m)
  unfolding put_back_all overlay
  put_back_all-find [] m m' u d h = ground arith
  put_back_all-find ((c, a) ∷ rest) m m' u d h = elim (Option-cases (assign t c a m)) [
    | inl e ↦ absurd (ground arith)
    | inr (m1, e) ↦
        put_back_all-find rest m1 m' u d (ground arith)
        ∙ ap (overlay t rest u d) (find-assign t c u d a m m1 e)
  ]

  put_back_all-assign :
      (removed : List (String × SendAttempt)) (c : String) (a : SendAttempt)
      → (m m' : ThreadMap SendAttempt) → assign t c a m ≡ some m'
      → (m'' : ThreadMap SendAttempt) × (put_back_all t removed m' ≡ some m'')
  unfolding put_back_all
  put_back_all-assign [] c a m m' h = (m', refl)
  put_back_all-assign ((c', a') ∷ rest) c a m m' h =
      let (m1, e) = assign-assign t c c' a a' m m' h in
      let (m2, e') = put_back_all-assign rest c' a' m' m1 e in (m2, rw (e, put_back_all) e')

  put_back_all-ensure :
      (removed : List (String × SendAttempt)) (m : ThreadMap SendAttempt)
      → (m' : ThreadMap SendAttempt) × (put_back_all t removed (ensure t m) ≡ some m')
  unfolding put_back_all
  put_back_all-ensure [] m = (ensure t m, refl)
  put_back_all-ensure ((c, a) ∷ rest) m =
      let (m1, e) = assign-ensure t c a m in
      let (m2, e') = put_back_all-assign rest c a (ensure t m) m1 e in (m2, rw (e, put_back_all) e')

  -- Taking one more entry out and noting it changes nothing that will be found.
  overlay-remove :
      (c : String) (a : SendAttempt) (removed : List (String × SendAttempt))
      → (sends : ThreadMap SendAttempt) (u d : String) → find t c sends ≡ some a
      → overlay t ((c, a) ∷ removed) u d (find u d (remove t c sends))
        ≡ overlay t removed u d (find u d sends)
  unfolding overlay
  overlay-remove c a removed sends u d e =
      ap (overlay t removed u d) (ground (arith, find-remove t c u d sends, eq_iff t u, eq_iff c d))

-- The loop over the proven messages neither panics nor reports a write, and what it takes out it
-- hands over.
record Keeps (t : String) (removed : List (String × SendAttempt)) (sends : ThreadMap SendAttempt)
    (r : Outcome (List (String × SendAttempt)) × ThreadMap SendAttempt) : Type 0 where
  refuses : Refuses r.0
  covers :
      (removed' : List (String × SendAttempt)) (u d : String)
      → r.0 ≡ ok removed'
      → overlay t removed' u d (find u d r.1) ≡ overlay t removed u d (find u d sends)

module _ (t : String) (digests : GoMap String) where
  remove_proven-Keeps :
      (proven : GoMap String) (sends : ThreadMap SendAttempt)
      → (removed : List (String × SendAttempt))
      → Keeps t removed sends (remove_proven t digests proven sends removed)
  unfolding remove_proven
  remove_proven-Keeps [] sends removed = record {
    refuses = ground arith;
    covers = λ removed' u d h. ground arith;
  }
  remove_proven-Keeps ((c, turn) ∷ rest) sends removed = elim (Option-cases (find t c sends)) [
    | inl e ↦ rw (e, remove_proven) (remove_proven-Keeps rest sends removed)
    | inr (a, e) ↦
        let ih = remove_proven-Keeps rest (remove t c sends) ((c, a) ∷ removed) in
        let next : Keeps t removed sends
            (remove_proven t digests rest (remove t c sends) ((c, a) ∷ removed)) =
          record {
            refuses = ih.refuses;
            covers = λ removed' u d h.
                ih.covers removed' u d h ∙ overlay-remove t c a removed sends u d e;
          } in
        let stop : (x : Error) → x ≢ Errors.write_failed → Keeps t removed sends (err x, sends) =
          λ x other. record {
            refuses = (λ h. cc, λ h. ground arith);
            covers = λ removed' u d h. absurd (ground arith);
          } in
        rw (e, remove_proven)
          (ground
            (arith, next, stop Errors.accepted_by_another_turn, stop Errors.changed_during_ack))
  ]

module _ (w : WriteOutcome) (s : Store) (t : String) (digests : GoMap String) where
  module _ (acks : List SendAcknowledgement) (proven : GoMap String) where
    -- The part after the loop, for whatever it ended with.
    after_loop-IsAtomic :
        (r : Outcome (List (String × SendAttempt))) (sends : ThreadMap SendAttempt)
        → Keeps t [] s.memory.send_attempts (r, sends)
        → IsAtomic w s (after_removal t acks proven r sends w s)
    unfolding after_removal overlay
    after_loop-IsAtomic panic sends h = absurd (h.refuses.0 refl)
    after_loop-IsAtomic (err e) sends h =
        IsAtomic-err w s e (with_sends s sends) (λ same. h.refuses.1 (ap err same)) refl
    after_loop-IsAtomic (ok []) sends h = IsAtomic-ok w s _ _ refl
    after_loop-IsAtomic (ok (r ∷ removed)) sends h =
        let pruned = prune t sends in
        let (m, back) = put_back_all-ensure t (r ∷ removed) pruned in
        let undo = sends_of s.memory m in
        let kept : Same undo s.memory = record {
          queue = λ u d. refl;
          sends = λ u d.
              put_back_all-find t (r ∷ removed) (ensure t pruned) m u d back
              ∙ ap (overlay t (r ∷ removed) u d) (find-ensure t u d pruned ∙ find-prune t u d sends)
              ∙ h.covers (r ∷ removed) u d refl;
          deletions = λ u d. refl;
          operations = λ k. refl;
        } in
        IsAtomic-finish w s (with_sends s pruned) _ undo _ refl (rw back) kept

    pub release_proven-IsAtomic : IsAtomic w s (release_proven t digests acks proven w s)
    unfolding release_proven
    release_proven-IsAtomic =
        let h = remove_proven-Keeps t digests proven s.memory.send_attempts [] in
        after_loop-IsAtomic _ _ h
