-- ===== src/Delivery/Call.antt =====
-- What a delivery runs in. Its transactions meet those of the other processes, its requests are answered
-- by the App Server, and the writer of codex/client.go (`writeOfferAdmission`) takes its input. All that
-- is not this call's own doing is in `Surroundings`, by the number of the event.
use codex_web.Common.{String, ℕ, Option, List, ◌+◌}
use codex_web.Errors
use codex_web.Errors.{Error, Outcome, ok, err, panic}
use codex_web.Library.{Library}
use codex_web.Ledger.Types.{Ledger, WriteOutcome, Action}
use codex_web.Ledger.Load.{Opening, queue_ledger_transaction}
use codex_web.Ledger.Requests.{Turn, run}
use codex_web.History.Messages.{Answers, QueueAnswers}

-- How a request with admission ends: no writer was reached, with the error; its input was admitted and
-- then not handed to the writer; it was handed over, and an error came back or the connection broke;
-- or it was answered with a turn identity.
pub data Exchange : Type 0 where
  unreached unwritten failed : Error → Exchange
  replied : String → Exchange

pub record TurnStatus : Type 0 where
  pub id : String
  pub status : String

pub record Surroundings : Type 0 where
  -- what the other users of the ledger do before the n-th event, and how its transaction goes
  pub others : ℕ → List Turn
  pub opening : ℕ → Opening
  pub write : ℕ → WriteOutcome
  -- the answers to the walk that is the n-th event
  pub items : ℕ → Answers
  pub queue : ℕ → QueueAnswers
  -- the requests around it: resuming the thread under its policy, its last turn, and the input
  pub resumed : Outcome (Unit {0})
  pub turns : Outcome (Option (List TurnStatus))
  pub exchange : Exchange
  -- the fresh name of the claim (`randomActivityNamespace`)
  pub claim : String
  -- the per-thread lock, and whether the context ends while a search waits to look again
  pub thread_lock : Outcome (Unit {0})
  pub interrupted : ℕ → Option Error

-- The durable ledger, the number of events so far, and how often input was handed to the writer.
pub record World : Type 0 where
  pub durable : Ledger
  pub events : ℕ
  pub dispatched : ℕ

abbrev pub Call {ℓ} : Type ℓ → Type ℓ
Call A = World → Outcome A × World

abbrev pub after {ℓ κ} :
    {A : Type ℓ} {B : Type κ} → (A → Call B) → Outcome A × World → Outcome B × World
after f (ok a, world) = f a world
after f (err e, world) = (err e, world)
after f (panic, world) = (panic, world)

infixl 5 ◌>>=◌ ◌>>◌
abbrev pub ◌>>=◌ {ℓ κ} : {A : Type ℓ} {B : Type κ} → Call A → (A → Call B) → Call B
(call >>= f) world = after f (call world)

abbrev pub ◌>>◌ {κ} : {B : Type κ} → Call (Unit {0}) → Call B → Call B
m >> k = m >>= λ _. k

abbrev pub done {ℓ} : {A : Type ℓ} → A → Call A
done a world = (ok a, world)

abbrev pub fail {ℓ} : {A : Type ℓ} → Error → Call A
fail e world = (err e, world)

abbrev pub known {ℓ} : {A : Type ℓ} → Outcome A → Call A
known r world = (r, world)

-- The result as a value, for a caller that goes on after an error.
abbrev caught_result {ℓ} : {A : Type ℓ} → Outcome A × World → Outcome (Outcome A) × World
caught_result (panic, world) = (panic, world)
caught_result (r, world) = (ok r, world)

abbrev pub caught {ℓ} : {A : Type ℓ} → Call A → Call (Outcome A)
caught call world = caught_result (call world)

-- What a failed call goes on with: `if err != nil { … }`. A panic is not caught.
abbrev recovered {ℓ} : {A : Type ℓ} → (Error → Call A) → Outcome A × World → Outcome A × World
recovered f (ok a, world) = (ok a, world)
recovered f (err e, world) = f e world
recovered f (panic, world) = (panic, world)

abbrev pub on_error {ℓ} : {A : Type ℓ} → Call A → (Error → Call A) → Call A
on_error call f world = recovered f (call world)

-- How the request went: it failed before it was admitted or by its admission, after it, or not.
pub data Requested : Type 0 where
  not_admitted not_answered : Error → Requested
  answered : String → Requested

abbrev admission :
    (World → Outcome Requested × World) → Outcome (Unit {0}) × World → Outcome Requested × World
admission write (ok _, world) = write world
admission write (err e, world) = (ok (not_admitted (Errors.wrapping e)), world)
admission write (panic, world) = (panic, world)

module _ (lib : Library) (around : Surroundings) where
  -- One transaction of this call, after those of the others.
  unfoldable pub transact {ℓ} : {A : Type ℓ} → Action A → Call A
  transact action world =
      let (result, durable) =
        queue_ledger_transaction lib (around.opening world.events) (around.write world.events)
          action (run lib (around.others world.events) world.durable) in
      (result, record world { durable = durable; events = 1 + world.events })

  -- A walk of a thread's items or its queue, judged by `search`.
  unfoldable pub look {ℓ} : {A : Type ℓ} → (QueueAnswers → Answers → Outcome A) → Call A
  look search world = (
    search (around.queue world.events) (around.items world.events),
    record world { events = 1 + world.events },
  )

  abbrev pub handed_over : World → World
  handed_over world = record world { dispatched = 1 + world.dispatched }

  -- The input passes the writer: it is admitted while the writer is held, and then handed over.
  unfoldable pub request_with_admission : Call (Unit {0}) → Call Requested
  request_with_admission admit world = elim around.exchange [
    | unreached e ↦ (ok (not_admitted e), world)
    | unwritten e ↦
        admission (λ w. (ok (not_answered (Errors.unwritten (Errors.transport e))), w))
          (admit world)
    | failed e ↦ admission (λ w. (ok (not_answered e), handed_over w)) (admit world)
    | replied turn ↦ admission (λ w. (ok (answered turn), handed_over w)) (admit world)
  ]
