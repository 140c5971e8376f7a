-- ===== src/Ledger/Loaded.antt =====
-- What the loader's checks (`loadQueueLedgerLockedContext` of codex/client.go) give every action: the sends of
-- a ledger that was loaded.
use mathlib.Core.Option
use codex_web.Common.{
  String, ◌≡◌, refl, sym, ap, ◌∙◌, subst, inl, inr, true, false, Option, none, some, [], ◌∷◌, arith,
  ◌==◌, eq_iff, Bool-cases, Option-cases, if◌then◌else◌,
}
use codex_web.Errors.{ok, Outcome-cases}
use codex_web.GoMap.{GoMap, lookup}
use codex_web.Library.{Library}
use codex_web.ThreadMap.{ThreadMap, find}
use codex_web.TurnOptions.{
  TurnOptions, NormalizedTurnOptions, normalize_turn_options, zero_turn_options_digest,
  effective_turn_options_digest,
}
use codex_web.Ledger.Types.{SendState, prepared, submitting, accepted, other, SendAttempt, Ledger}
use codex_web.Ledger.Load.{
  valid_submission_digest, valid_send_state, valid_send_attempt_state, options_have_digest,
  valid_send_attempt, valid_send_options, check_attempts, check_sends, read_attempt,
  load_queue_ledger,
}
use codex_web.Ledger.Moves.Safety.{at-load}

-- A state that an attempt is stored in, with its turn.
pub data IsState : SendState → String → Type 0 where
  waiting : IsState prepared ""
  sending : IsState submitting ""
  done : (turn : String) → (turn == "") ≡ false → IsState accepted turn

-- Omitting the digest of no options and reading it back changes no digest.
omitted :
    (zero stored : String)
    → (if (if stored == zero then "" else stored) == ""
        then zero
        else (if stored == zero then "" else stored))
      ≡ (if stored == "" then zero else stored)
omitted zero stored = elim (Bool-cases (stored == zero)) [
  | inl e ↦
      let same : stored ≡ zero = ground (arith, e, eq_iff stored zero) in
      rw e (elim (Bool-cases (stored == "")) [
        | inl empty ↦ rw empty refl
        | inr set ↦ rw set (sym same)
      ])
  | inr e ↦ rw e refl
]

module _ (lib : Library) where
  -- The options, where they are stored, are those of the digest.
  pub data IsOptions : Option TurnOptions → String → Type 0 where
    dropped : (digest : String) → IsOptions none digest
    given :
        (options : TurnOptions) (stored : NormalizedTurnOptions)
        → normalize_turn_options lib options ≡ ok stored
        → IsOptions (some options) stored.digest

  -- A send as an action may rely on it.
  pub record IsSend (thread client : String) (a : SendAttempt) : Type 0 where
    pub named : ((thread == "") ≡ false) × ((client == "") ≡ false)
    pub digest : valid_submission_digest a.digest ≡ true
    pub state : IsState a.state a.turn_id
    pub unclaimed : a.admission_id ≡ ""
    pub options : IsOptions a.options (effective_turn_options_digest lib a.options_digest)

  check_attempts-found :
      (client : String) (attempts : GoMap SendAttempt) (x : SendAttempt)
      → check_attempts lib attempts ≡ ok tt
      → lookup client attempts ≡ some x
      → (valid_send_attempt lib client x ≡ true) × (valid_send_options lib x ≡ true)
  unfolding check_attempts lookup
  check_attempts-found client [] x checked found = absurd (ground (arith, found))
  check_attempts-found client ((c, a) ∷ attempts) x checked found =
      let valid : valid_send_attempt lib c a ≡ true = ground (arith, checked) in
      let fits : valid_send_options lib a ≡ true = ground (arith, checked, valid) in
      elim (Bool-cases (c == client)) [
        | inl hit ↦
            let own : c ≡ client = ground (arith, hit, eq_iff c client) in
            let same : a ≡ x = ground (arith, hit, found) in
            (
              ap (λ d. valid_send_attempt lib d x) (sym own)
                  ∙ (ap (valid_send_attempt lib c) (sym same) ∙ valid),
              ap (valid_send_options lib) (sym same) ∙ fits,
            )
        | inr miss ↦
            check_attempts-found client attempts x (ground (arith, checked, valid, fits))
              (ground (arith, miss, found))
      ]

  check_sends-found :
      (thread client : String) (m : ThreadMap SendAttempt) (x : SendAttempt)
      → check_sends lib m ≡ ok tt
      → find thread client m ≡ some x
      → ((thread == "") ≡ false)
        × (valid_send_attempt lib client x ≡ true)
        × (valid_send_options lib x ≡ true)
  unfolding check_sends find lookup
  check_sends-found thread client [] x checked found = absurd (ground (arith, found))
  check_sends-found thread client ((t, attempts) ∷ m) x checked found =
      elim (Outcome-cases (check_attempts lib attempts)) [
        | inr (inl (e, c)) ↦ absurd (ground (arith, checked, c))
        | inr (inr c) ↦ absurd (ground (arith, checked, c))
        | inl (u, c) ↦
            let named : (t == "") ≡ false = ground (arith, checked, c) in
            elim (Bool-cases (t == thread)) [
              | inl hit ↦
                  let own : t ≡ thread = ground (arith, hit, eq_iff t thread) in
                  let (valid, fits) =
                    check_attempts-found client attempts x c (ground (arith, hit, found)) in
                  (ap (λ k. k == "") (sym own) ∙ named, valid, fits)
              | inr miss ↦
                  check_sends-found thread client m x (ground (arith, checked, c, named))
                    (ground (arith, miss, found))
            ]
      ]

  valid_send_state-IsState :
      (state : SendState) (turn : String) → valid_send_state state turn ≡ true → IsState state turn
  unfolding valid_send_state
  valid_send_state-IsState prepared turn h =
      subst (IsState prepared) (sym (ground (arith, h, eq_iff turn ""))) waiting
  valid_send_state-IsState submitting turn h =
      subst (IsState submitting) (sym (ground (arith, h, eq_iff turn ""))) sending
  valid_send_state-IsState accepted turn h = done turn (ground (arith, h))
  valid_send_state-IsState (other _) turn h = absurd (ground (arith, h))

  options_have_digest-IsOptions :
      (options : Option TurnOptions) (digest : String)
      → options_have_digest lib options digest ≡ true
      → IsOptions options digest
  unfolding options_have_digest
  options_have_digest-IsOptions none digest h = dropped digest
  options_have_digest-IsOptions (some options) digest h =
      elim (Outcome-cases (normalize_turn_options lib options)) [
        | inl (stored, n) ↦
            subst (IsOptions (some options)) (ground (arith, h, n, eq_iff stored.digest digest))
              (given options stored n)
        | inr (inl (e, n)) ↦ absurd (ground (arith, h, n))
        | inr (inr n) ↦ absurd (ground (arith, h, n))
      ]

  -- Reading the digest of no options as an omitted one changes none.
  effective-read :
      (x : SendAttempt)
      → effective_turn_options_digest lib (read_attempt lib x).options_digest
        ≡ effective_turn_options_digest lib x.options_digest
  unfolding effective_turn_options_digest read_attempt
  effective-read x = omitted (zero_turn_options_digest lib) x.options_digest

  -- Every send of a ledger that was loaded is sound: its thread and its client identity are not empty, the
  -- digest of its text is one, it names a turn exactly where it is accepted, it has no claim of another process,
  -- and the options stored with it, where there are any, have the digest stored with it.
  pub load_queue_ledger-IsSend :
      (l l' : Ledger) (thread client : String) (a : SendAttempt)
      → load_queue_ledger lib l ≡ ok l'
      → find thread client l'.send_attempts ≡ some a
      → IsSend thread client a
  unfolding load_queue_ledger valid_send_attempt valid_send_attempt_state valid_send_options
      read_attempt
  load_queue_ledger-IsSend l l' thread client a h found =
      let loaded : find thread client l'.send_attempts
          ≡ Option.map (read_attempt lib) (find thread client l.send_attempts) =
        ap (λ m. m.send) (at-load lib l l' thread client h) in
      elim (Option-cases (find thread client l.send_attempts)) [
        | inl absent ↦ absurd (ground (arith, loaded, absent, found))
        | inr (x, there) ↦
            let same : read_attempt lib x ≡ a = ground (arith, loaded, there, found) in
            let checked : check_sends lib l.send_attempts ≡ ok tt = ground (arith, h) in
            let (named, valid, fits) =
              check_sends-found thread client l.send_attempts x checked there in
            subst (IsSend thread client) same (record {
              named = (named, ground (arith, valid));
              digest = ground (arith, valid);
              state = valid_send_state-IsState x.state x.turn_id (ground (arith, valid));
              unclaimed = refl;
              options = subst (IsOptions x.options) (sym (effective-read x)) (
                  options_have_digest-IsOptions x.options
                    (effective_turn_options_digest lib x.options_digest) fits);
            })
      ]
