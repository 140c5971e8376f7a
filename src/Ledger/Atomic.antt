-- ===== src/Ledger/Atomic.antt =====
-- What an error of an action leaves behind, in the durable ledger and in the client's maps.
pub mod Sends
pub mod Queue
pub mod Cleanup
pub mod Compaction
pub mod Requests
pub mod Transactions
use mathlib.Core.Option
use codex_web.Common.{
  String, ◌≡◌, ◌≢◌, refl, ap, sym, ◌∙◌, inl, inr, Bool, true, false, not, ◌&&◌, Option, none, some,
  List, [], ◌∷◌, arith, ◌==◌, eq_iff, eq_refl, if◌then◌else◌, Bool-cases, Option-cases,
}
use codex_web.Errors
use codex_web.Errors.{Error, Outcome, ok, err, panic}
use codex_web.GoMap.{GoMap, lookup, insert, delete, lookup-insert, lookup-delete}
use codex_web.Library.{Library}
use codex_web.ThreadMap.{
  ThreadMap, find, ensure, assign, remove, prune, find-ensure, assign-ensure, find-assign,
  find-remove, find-prune,
}
use codex_web.Ledger.Requests.{forget}
use codex_web.Ledger.Types.{
  SendAttempt, SendReceipt, Ledger, Store, WriteOutcome, written, not_written, unsynced, Action,
  finish,
}

-- The two ledgers answer every lookup alike.
pub record Same (a b : Ledger) : Type 0 where
  pub queue : (t c : String) → find t c a.queue_attempts ≡ find t c b.queue_attempts
  pub sends : (t c : String) → find t c a.send_attempts ≡ find t c b.send_attempts
  pub deletions : (t c : String) → find t c a.queue_deletions ≡ find t c b.queue_deletions
  pub operations : (k : String) → lookup k a.operations ≡ lookup k b.operations

pub Same-refl : (a : Ledger) → Same a a
Same-refl a = record {
  queue = λ t c. refl;
  sends = λ t c. refl;
  deletions = λ t c. refl;
  operations = λ k. refl;
}

-- `r` is how an action ended on the store `s`, its write being `w`.
pub record IsAtomic {ℓ} {A : Type ℓ} (w : WriteOutcome) (s : Store) (r : Outcome A × Store)
    : Type ℓ where
  pub no_panic : r.0 ≢ panic
  pub kept : (e : Error) → r.0 ≡ err e → w ≢ unsynced → r.1.durable ≡ s.durable
  pub undone : r.0 ≡ err Errors.write_failed → Same r.1.memory s.memory

module _ {ℓ} {A : Type ℓ} (w : WriteOutcome) (s : Store) where
  pub IsAtomic-ok : (a : A) (s' : Store) → s'.durable ≡ s.durable → IsAtomic w s (ok a, s')
  IsAtomic-ok a s' same = record { no_panic = λ e. cc; kept = λ e h _. same; undone = λ h. cc }

  -- An action that refuses leaves the durable ledger alone.
  pub IsAtomic-err :
      (e : Error) (s' : Store)
      → e ≢ Errors.write_failed
      → s'.durable ≡ s.durable
      → IsAtomic {A = A} w s (err e, s')
  IsAtomic-err e s' other same = record {
    no_panic = λ h. cc;
    kept = λ e h _. same;
    undone = λ h. ground arith;
  }

  pub IsAtomic-if :
      (b : Bool) (x y : Outcome A × Store)
      → (b ≡ true → IsAtomic w s x)
      → (b ≡ false → IsAtomic w s y)
      → IsAtomic w s (if b then x else y)
  IsAtomic-if true x y yes_case no_case = yes_case refl
  IsAtomic-if false x y yes_case no_case = no_case refl

  pub IsAtomic-forget : (r : Outcome A × Store) → IsAtomic w s r → IsAtomic w s (forget r)
  IsAtomic-forget (ok a, s') h = record { no_panic = λ e. cc; kept = λ e p _. cc; undone = λ p. cc }
  IsAtomic-forget (err e, s') h = record {
    no_panic = λ p. cc;
    kept = λ e' p failed. h.kept e refl failed;
    undone = λ p. h.undone (ground arith);
  }
  IsAtomic-forget (panic, s') h = absurd (h.no_panic refl)

  pub IsAtomic-finish :
      (s' : Store) (undo : Option Ledger) (l : Ledger) (a : A)
      → s'.durable ≡ s.durable
      → undo ≡ some l
      → Same l s.memory
      → IsAtomic w s (finish w s' undo a)
  IsAtomic-finish s' undo l a same e back = elim w as (λ v. IsAtomic v s (finish v s' undo a)) [
    | written ↦ record { no_panic = λ h. cc; kept = λ e h _. cc; undone = λ h. cc }
    | not_written ↦ rw e (record { no_panic = λ h. cc; kept = λ e h _. same; undone = λ _. back })
    | unsynced ↦ rw e (record {
      no_panic = λ h. cc;
      kept = λ e h failed. absurd (failed refl);
      undone = λ _. back;
    })
  ]

module _ {V : Type 0} (t c : String) (m m' : ThreadMap V) where
  -- Removing the entry just made gives back what was there, if there was none.
  pub find-remove-assign :
      (v : V) (u d : String)
      → find t c m ≡ none
      → assign t c v (ensure t m) ≡ some m'
      → find u d (prune t (remove t c m')) ≡ find u d m
  find-remove-assign v u d absent made = ground (
    arith,
    find-prune t u d (remove t c m'),
    find-remove t c u d m',
    find-assign t c u d v (ensure t m) m',
    find-ensure t u d m,
    eq_iff t u,
    eq_iff c d,
  )

  -- Putting the previous entry back in place of the changed one.
  pub find-assign-assign :
      (v old : V) (m'' : ThreadMap V) (u d : String)
      → find t c m ≡ some old
      → assign t c v m ≡ some m'
      → assign t c old m' ≡ some m''
      → find u d m'' ≡ find u d m
  find-assign-assign v old m'' u d found changed back =
      ground
        (arith, find-assign t c u d old m' m'', find-assign t c u d v m m', eq_iff t u, eq_iff c d)

-- Putting a removed entry back.
pub find-assign-remove :
    {V : Type 0} (t c : String) (m m' : ThreadMap V) (old : V) (u d : String)
    → find t c m ≡ some old
    → assign t c old (ensure t (prune t (remove t c m))) ≡ some m'
    → find u d m' ≡ find u d m
find-assign-remove t c m m' old u d found back = ground (
  arith,
  find-assign t c u d old (ensure t (prune t (remove t c m))) m',
  find-ensure t u d (prune t (remove t c m)),
  find-prune t u d (remove t c m),
  find-remove t c u d m,
  eq_iff t u,
  eq_iff c d,
)
