-- ===== src/Ledger/Moves.antt =====
-- The life of one message in the ledger, as a step relation: what a request may do to the queue and
-- send attempts of one thread and client identity. `retires` says that the request is one by which the
-- application retires what was delivered or given up.
pub mod Sends
pub mod Queue
pub mod Cleanup
pub mod Compaction
pub mod Requests
pub mod Safety
use mathlib.Core.Path.{subst₂}
use codex_web.Common.{
  String, ◌≡◌, refl, ap, ◌⊎◌, inl, inr, Bool, true, false, not, ◌&&◌, Option, none, some, arith,
  ◌==◌, eq_iff, if◌then◌else◌, Bool-cases,
}
use codex_web.Errors.{Outcome}
use codex_web.GoMap.{GoMap}
use codex_web.ThreadMap.{find}
use codex_web.Ledger.Types.{
  SendState, prepared, submitting, accepted, SendAttempt, Ledger, Store, WriteOutcome, written,
  not_written, unsynced, finish, is_submitting,
}
use codex_web.Ledger.Sends.{is_accepted_attempt}
use codex_web.Ledger.Queue.{may_queue_over}

pub record MessageState : Type 0 where
  pub queued : Option String
  pub send : Option SendAttempt

abbrev pub at : String → String → Ledger → MessageState
at t c l = record { queued = find t c l.queue_attempts; send = find t c l.send_attempts }

-- A queue attempt counts where its digest is not empty.
unfoldable pub counts : Option String → Bool
counts none = false
counts (some digest) = not (digest == "")

-- The two attempts stand for one and the same message.
abbrev pub SameMessage : SendAttempt → SendAttempt → Type 0
SameMessage x y = (x.digest ≡ y.digest) × (x.context ≡ y.context) × (x.steered ≡ y.steered)

pub data Move (retires : Bool) (m n : MessageState) : Type 0 where
  stay : n ≡ m → Move retires m n
  prepare :
      (x : SendAttempt)
      → m.send ≡ none
      → x.state ≡ prepared
      → x.turn_id ≡ ""
      → n ≡ record m { send = some x }
      → Move retires m n
  claim :
      (x : SendAttempt) (name : String)
      → m.send ≡ some x
      → x.state ≡ prepared
      → counts m.queued ≡ false
      → n ≡ record m { send = some (record x { state = submitting; admission_id = name }) }
      → Move retires m n
  accept :
      (x : SendAttempt) (turn : String)
      → m.send ≡ some x
      → x.state ≡ submitting
      → (turn == "") ≡ false
      → n ≡ record m { send = some (record x { state = accepted; turn_id = turn }) }
      → Move retires m n
  restore :
      (x : SendAttempt)
      → m.send ≡ some x
      → x.state ≡ submitting
      → n ≡ record m { send = some (record x { state = prepared; admission_id = "" }) }
      → Move retires m n
  prove :
      (x : SendAttempt)
      → is_accepted_attempt m.send ≡ false
      → ((old : SendAttempt) → m.send ≡ some old → SameMessage old x)
      → x.state ≡ accepted
      → (x.turn_id == "") ≡ false
      → n ≡ record m { send = some x }
      → Move retires m n
  enqueue :
      (digest : String)
      → m.queued ≡ none
      → may_queue_over m.send digest ≡ true
      → n ≡ record m { queued = some digest }
      → Move retires m n
  discard :
      (x : SendAttempt)
      → m.send ≡ some x
      → x.state ≡ prepared
      → counts m.queued ≡ false
      → n ≡ record m { send = none }
      → Move retires m n
  compact :
      (x : SendAttempt)
      → m.send ≡ some x
      → x.state ≡ accepted
      → n ≡ record m { send = some (record x { options = none }) }
      → Move retires m n
  retire : retires ≡ true → n ≡ record m { send = none } → Move retires m n
  dequeue :
      retires ≡ true
      → (n ≡ record m { queued = none }) ⊎ (n ≡ record { queued = none; send = none })
      → Move retires m n

-- The durable ledger is as it was, or `P` holds of it.
abbrev pub Lands {ℓ} : {A : Type ℓ} → Store → (Ledger → Type 0) → Outcome A × Store → Type 0
Lands s P r = (r.1.durable ≡ s.durable) ⊎ P r.1.durable

module _ {ℓ} {A : Type ℓ} (w : WriteOutcome) (s s' : Store) (undo : Option Ledger) (a : A) where
  pub finish-Lands :
      (P : Ledger → Type 0) → s'.durable ≡ s.durable → P s'.memory → Lands s P (finish w s' undo a)
  finish-Lands P e h = go w undo
    where
      go : (x : WriteOutcome) (y : Option Ledger) → Lands s P (finish x s' y a)
      go written y = inr h
      go not_written none = inl e
      go not_written (some l) = inl e
      go unsynced none = inr h
      go unsynced (some l) = inr h

module _ (retires : Bool) (t c u d : String) (m l : Ledger) where
  -- A write of one send attempt, or its removal, moves that message and no other.
  pub Move-send :
      (v : Option SendAttempt)
      → find u d l.queue_attempts ≡ find u d m.queue_attempts
      → find u d l.send_attempts ≡ (if t == u && c == d then v else find u d m.send_attempts)
      → Move retires (at t c m) (record { queued = find t c m.queue_attempts; send = v })
      → Move retires (at u d m) (at u d l)
  Move-send v same sends move = elim (Bool-cases (t == u && c == d)) [
    | inl hit ↦
        let et : t ≡ u = ground (arith, eq_iff t u, eq_iff c d) in
        let ec : c ≡ d = ground (arith, eq_iff t u, eq_iff c d) in
        let before : at t c m ≡ at u d m = cc (et, ec) in
        let after : record { queued = find t c m.queue_attempts; send = v } ≡ at u d l =
          ground (arith, et, ec) in
        subst₂ (Move retires) before after move
    | inr miss ↦ stay (ground arith)
  ]

  pub Move-queue :
      (v : Option String)
      → find u d l.queue_attempts ≡ (if t == u && c == d then v else find u d m.queue_attempts)
      → find u d l.send_attempts ≡ find u d m.send_attempts
      → Move retires (at t c m) (record { queued = v; send = find t c m.send_attempts })
      → Move retires (at u d m) (at u d l)
  Move-queue v queue same move = elim (Bool-cases (t == u && c == d)) [
    | inl hit ↦
        let et : t ≡ u = ground (arith, eq_iff t u, eq_iff c d) in
        let ec : c ≡ d = ground (arith, eq_iff t u, eq_iff c d) in
        let before : at t c m ≡ at u d m = cc (et, ec) in
        let after : record { queued = v; send = find t c m.send_attempts } ≡ at u d l =
          ground (arith, et, ec) in
        subst₂ (Move retires) before after move
    | inr miss ↦ stay (ground arith)
  ]
