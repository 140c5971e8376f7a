-- ===== src/Ledger/Moves/Safety.antt =====
-- What the moves of messages mean over a history of transactions, by whichever clients and processes.
use mathlib.Core.Option
use codex_web.Common.{
  String, ◌≡◌, refl, subst, ap, ◌∙◌, ◌⊎◌, inl, inr, Bool, false, ◌&&◌, Option, none, some, List, [],
  ◌∷◌, arith, Option-cases,
}
use codex_web.Errors.{ok, Outcome-cases}
use codex_web.GoMap.{GoMap, lookup}
use codex_web.Library.{Library}
use codex_web.ThreadMap.{ThreadMap, find}
use codex_web.Ledger.Types.{
  accepted, SendAttempt, Ledger, WriteOutcome, written, not_written, unsynced, is_submitting,
  is_prepared, is_accepted,
}
use codex_web.Ledger.Sends.{is_accepted_attempt}
use codex_web.Ledger.Queue.{may_queue_over}
use codex_web.Ledger.Load.{
  Opening, opened, migrated, refused, map_entries, read_attempt, load_queue_ledger,
  queue_ledger_transaction,
}
use codex_web.Ledger.Requests.{Request, perform, Turn, step, run}
use codex_web.Ledger.Moves.{
  MessageState, at, counts, SameMessage, Move, stay, prepare, claim, accept, restore, prove,
  enqueue, discard, compact, retire, dequeue,
}
use codex_web.Ledger.Moves.Requests.{retires, perform-Moves}

lookup-map_entries :
    {V : Type 0} (f : V → V) (k : String) (m : GoMap V)
    → lookup k (map_entries f m) ≡ Option.map f (lookup k m)
unfolding lookup map_entries
lookup-map_entries f k [] = refl
lookup-map_entries f k ((j, v) ∷ m) = ground (arith, lookup-map_entries f k m)

find-map_entries :
    {V : Type 0} (f : V → V) (t c : String) (m : ThreadMap V)
    → find t c (map_entries (map_entries f) m) ≡ Option.map f (find t c m)
unfolding find
find-map_entries f t c m = elim (Option-cases (lookup t m)) [
  | inl e ↦ ground (arith, lookup-map_entries (map_entries f) t m)
  | inr (inner, e) ↦
      ground (arith, lookup-map_entries (map_entries f) t m, lookup-map_entries f c inner)
]

-- A send attempt whose submission is claimed and not settled.
unfoldable pub in_submission : Option SendAttempt → Bool
in_submission none = false
in_submission (some attempt) = is_submitting attempt.state

-- The message is in the queue, and a send of it is on its way.
unfoldable pub delivered_twice : MessageState → Bool
delivered_twice m = counts m.queued && in_submission m.send

Move-delivered_twice :
    (r : Bool) (m n : MessageState)
    → Move r m n
    → delivered_twice m ≡ false
    → delivered_twice n ≡ false
unfolding delivered_twice in_submission counts is_submitting is_prepared may_queue_over
    is_accepted_attempt is_accepted
Move-delivered_twice r m n (stay e) h = ground (arith, e)
Move-delivered_twice r m n (prepare x absent state turn e) h = ground (arith, e, state)
Move-delivered_twice r m n (claim x name found state free e) h = ground (arith, e, free)
Move-delivered_twice r m n (accept x turn found state named e) h = ground (arith, e)
Move-delivered_twice r m n (restore x found state e) h = ground (arith, e)
Move-delivered_twice r m n (prove x fresh same state named e) h = ground (arith, e, state)
Move-delivered_twice r m n (enqueue digest absent over e) h = ground (arith, e, over)
Move-delivered_twice r m n (discard x found state free e) h = ground (arith, e)
Move-delivered_twice r m n (compact x found state e) h = ground (arith, e, state)
Move-delivered_twice r m n (retire _ e) h = ground (arith, e)
Move-delivered_twice r m n (dequeue _ (inl e)) h = ground (arith, e)
Move-delivered_twice r m n (dequeue _ (inr e)) h = ground (arith, e)

module _ (lib : Library) where
  -- What loading makes of one message.
  abbrev loaded : MessageState → MessageState
  loaded m = record { queued = m.queued; send = Option.map (read_attempt lib) m.send }

  pub load-ok :
      (l l' : Ledger)
      → load_queue_ledger lib l ≡ ok l'
      → l'
        ≡ record l { send_attempts = map_entries (map_entries (read_attempt lib)) l.send_attempts }
  unfolding load_queue_ledger
  load-ok l l' h = ground arith

  pub at-load :
      (l l' : Ledger) (u d : String)
      → load_queue_ledger lib l ≡ ok l'
      → at u d l' ≡ loaded (at u d l)
  at-load l l' u d h =
      let e = load-ok l l' h in
      ground (arith, e, find-map_entries (read_attempt lib) u d l.send_attempts)

  abbrev MovesOn : Bool → Ledger → Ledger → Type 0
  MovesOn r l l' = (l' ≡ l) ⊎ ((u d : String) → Move r (loaded (at u d l)) (at u d l'))

  transaction-MovesOn :
      (opening : Opening) (w : WriteOutcome) (request : Request) (l : Ledger)
      → MovesOn
          (retires request)
          l
          (queue_ledger_transaction lib opening w (perform lib request) l).1
  unfolding queue_ledger_transaction
  transaction-MovesOn (refused e) w request l = inl refl
  transaction-MovesOn opened w request l = elim (Outcome-cases (load_queue_ledger lib l)) [
    | inl (l', e) ↦
        rw (e, queue_ledger_transaction)
          (elim (perform-Moves lib w (record { memory = l'; durable = l }) request) [
            | inl same ↦ inl same
            | inr moves ↦ inr (λ u d.
                subst
                  (λ m. Move (retires request) m (
                    at u d (perform lib request w (record { memory = l'; durable = l })).1.durable))
                  (at-load l l' u d e) (moves u d))
          ])
    | inr (inl (x, e)) ↦ rw (e, queue_ledger_transaction) (inl refl)
    | inr (inr e) ↦ rw (e, queue_ledger_transaction) (inl refl)
  ]
  transaction-MovesOn (migrated written) w request l =
      elim (Outcome-cases (load_queue_ledger lib l)) [
        | inl (l', e) ↦
            rw (e, queue_ledger_transaction)
              (elim (perform-Moves lib w (record { memory = l'; durable = l' }) request) [
                | inl same ↦ inr (λ u d. stay (ap (at u d) same ∙ at-load l l' u d e))
                | inr moves ↦ inr (λ u d.
                    subst
                      (λ m. Move (retires request) m (
                        at u d
                          (perform lib request w (record { memory = l'; durable = l' })).1.durable))
                      (at-load l l' u d e) (moves u d))
              ])
        | inr (inl (x, e)) ↦ rw (e, queue_ledger_transaction) (inl refl)
        | inr (inr e) ↦ rw (e, queue_ledger_transaction) (inl refl)
      ]
  transaction-MovesOn (migrated not_written) w request l =
      inl (ground (arith, Outcome-cases (load_queue_ledger lib l)))
  transaction-MovesOn (migrated unsynced) w request l =
      elim (Outcome-cases (load_queue_ledger lib l)) [
        | inl (l', e) ↦ rw (e, queue_ledger_transaction) (inr (λ u d. stay (at-load l l' u d e)))
        | inr (inl (x, e)) ↦ rw (e, queue_ledger_transaction) (inl refl)
        | inr (inr e) ↦ rw (e, queue_ledger_transaction) (inl refl)
      ]

  -- A transaction leaves the ledger as it was, or every message moves on from what was loaded.
  step-MovesOn : (turn : Turn) (l : Ledger) → MovesOn (retires turn.request) l (step lib turn l)
  unfolding step
  step-MovesOn turn l = transaction-MovesOn turn.opening turn.write turn.request l

  loaded-delivered_twice :
      (m : MessageState) → delivered_twice m ≡ false → delivered_twice (loaded m) ≡ false
  unfolding delivered_twice in_submission read_attempt
  loaded-delivered_twice m h = ground arith

  -- No history of transactions, whatever its order and its failed writes, leaves a message both in the
  -- queue and in submission, if none was before.
  pub run-delivered_twice :
      (turns : List Turn) (l : Ledger)
      → ((u d : String) → delivered_twice (at u d l) ≡ false)
      → (u d : String) → delivered_twice (at u d (run lib turns l)) ≡ false
  unfolding run
  run-delivered_twice [] l start u d = start u d
  run-delivered_twice (turn ∷ turns) l start u d =
      run-delivered_twice turns (step lib turn l) (λ v e. moved v e (step-MovesOn turn l)) u d
    where
      moved :
          (v e : String)
          → MovesOn (retires turn.request) l (step lib turn l)
          → delivered_twice (at v e (step lib turn l)) ≡ false
      moved v e (inl same) = ap (λ x. delivered_twice (at v e x)) same ∙ start v e
      moved v e (inr moves) =
          Move-delivered_twice (retires turn.request) (loaded (at v e l)) (at v e (step lib turn l))
            (moves v e) (loaded-delivered_twice (at v e l) (start v e))

  -- What a transaction may make of an accepted send: it is gone, or it is the same message, accepted
  -- by the same turn.
  abbrev pub StaysAccepted : SendAttempt → Option SendAttempt → Type 0
  StaysAccepted x send =
      (send ≡ none)
      ⊎ ((y : SendAttempt) × (send ≡ some y)
          × (y.state ≡ accepted)
          × (y.turn_id ≡ x.turn_id)
          × SameMessage x y)

  Move-StaysAccepted :
      (r : Bool) (m n : MessageState) (x : SendAttempt)
      → Move r m n
      → m.send ≡ some x
      → x.state ≡ accepted
      → StaysAccepted x n.send
  unfolding is_accepted_attempt is_accepted
  Move-StaysAccepted r m n x (stay e) found state =
      inr (x, ground (arith, e), state, refl, (refl, refl, refl))
  Move-StaysAccepted r m n x (prepare y absent _ _ e) found state = absurd (ground (arith, absent))
  Move-StaysAccepted r m n x (claim y name there other free e) found state =
      absurd (ground (arith, there, other))
  Move-StaysAccepted r m n x (accept y turn there other named e) found state =
      absurd (ground (arith, there, other))
  Move-StaysAccepted r m n x (restore y there other e) found state =
      absurd (ground (arith, there, other))
  Move-StaysAccepted r m n x (prove y fresh same _ named e) found state =
      absurd (ground (arith, fresh))
  Move-StaysAccepted r m n x (enqueue digest absent over e) found state =
      inr (x, ground (arith, e), state, refl, (refl, refl, refl))
  Move-StaysAccepted r m n x (discard y there other free e) found state = inl (ground (arith, e))
  Move-StaysAccepted r m n x (compact y there accepts e) found state =
      let same : y ≡ x = ground (arith, there, found) in
      inr (record x { options = none }, ground (arith, e, same), state, refl, (refl, refl, refl))
  Move-StaysAccepted r m n x (retire _ e) found state = inl (ground (arith, e))
  Move-StaysAccepted r m n x (dequeue _ (inl e)) found state =
      inr (x, ground (arith, e), state, refl, (refl, refl, refl))
  Move-StaysAccepted r m n x (dequeue _ (inr e)) found state = inl (ground (arith, e))

  loaded-StaysAccepted :
      (r : Bool) (m n : MessageState) (x : SendAttempt)
      → Move r (loaded m) n
      → m.send ≡ some x
      → x.state ≡ accepted
      → StaysAccepted x n.send
  unfolding read_attempt
  loaded-StaysAccepted r m n x move found state =
      Move-StaysAccepted r (loaded m) n (read_attempt lib x) move
        (ap (Option.map (read_attempt lib)) found) state

  -- A transaction that finds a send accepted by a turn leaves it accepted by that turn, with the same
  -- text digest, action context and steering, or removes its record.
  pub step-StaysAccepted :
      (turn : Turn) (l : Ledger) (u d : String) (x : SendAttempt)
      → find u d l.send_attempts ≡ some x
      → x.state ≡ accepted
      → StaysAccepted x (find u d (step lib turn l).send_attempts)
  step-StaysAccepted turn l u d x found state = elim (step-MovesOn turn l) [
    | inl same ↦
        inr (x, ap (λ m. find u d m.send_attempts) same ∙ found, state, refl, (refl, refl, refl))
    | inr moves ↦
        loaded-StaysAccepted (retires turn.request) (at u d l) (at u d (step lib turn l)) x
          (moves u d) found state
  ]
