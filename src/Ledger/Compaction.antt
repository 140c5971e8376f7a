-- ===== src/Ledger/Compaction.antt =====
-- `CompactAcceptedSendOptions` (codex/client.go), over the ledger: the options of the accepted sends of an
-- application's contexts are discarded, and put back where the write fails.
use mathlib.Core.Option
use codex_web.Common.{
  String, Bool, true, false, ◌&&◌, Option, none, some, List, [], ◌∷◌, ◌==◌, if◌then◌else◌,
}
use codex_web.Errors.{ok, panic}
use codex_web.GoMap.{GoMap}
use codex_web.ThreadMap.{ThreadMap, find, assign}
use codex_web.TurnOptions.Types.{TurnOptions}
use codex_web.Ledger.Types.{SendAttempt, other, Action, is_accepted, finish, with_sends}
use codex_web.Ledger.Sends.{sends_of}

-- `strings.HasPrefix(s, prefix)`
unfoldable pub has_prefix : String → String → Bool
has_prefix String.[] s = true
has_prefix (String.◌∷◌ c p) String.[] = false
has_prefix (String.◌∷◌ c p) (String.◌∷◌ d s) =
    ((String.◌∷◌ c String.[]) == (String.◌∷◌ d String.[])) && has_prefix p s

pub record SavedOption : Type 0 where
  pub thread_id : String
  pub client_id : String
  pub options : Option TurnOptions

-- The variables of the loop: the maps, and what was changed, the latest first.
pub record Compacting : Type 0 where
  pub sends : ThreadMap SendAttempt
  pub changed : List SavedOption

unfoldable pub is_compactable : String → SendAttempt → Bool
is_compactable prefix attempt =
    is_accepted attempt.state
    && (elim attempt.options [ none ↦ false | some _ ↦ true ])
    && has_prefix prefix attempt.context

-- One round of the loop. `none` is the panic on a nil map.
unfoldable pub compact_attempt : String → String → String → Compacting → Option Compacting
compact_attempt prefix thread client c = elim (find thread client c.sends) [
  | none ↦ some c
  | some attempt ↦
      if is_compactable prefix attempt
      then (elim (assign thread client (record attempt { options = none }) c.sends) [
        | none ↦ none
        | some sends ↦ some (record {
          sends = sends;
          changed =
              record { thread_id = thread; client_id = client; options = attempt.options }
              ∷ c.changed;
        })
      ])
      else some c
]

-- The loop over the attempts of a thread, and over the threads. A round reads what the map has by then.
unfoldable pub compact_thread : String → String → GoMap SendAttempt → Compacting → Option Compacting
compact_thread prefix thread [] c = some c
compact_thread prefix thread ((client, _) ∷ attempts) c =
    elim (compact_attempt prefix thread client c) [
      | none ↦ none
      | some c' ↦ compact_thread prefix thread attempts c'
    ]

unfoldable pub compact_threads : String → ThreadMap SendAttempt → Compacting → Option Compacting
compact_threads prefix [] c = some c
compact_threads prefix ((thread, attempts) ∷ threads) c =
    elim (compact_thread prefix thread attempts c) [
      | none ↦ none
      | some c' ↦ compact_threads prefix threads c'
    ]

abbrev missing_attempt : SendAttempt
missing_attempt = record {
  admission_id = "";
  digest = "";
  state = other "";
  context = "";
  options_digest = "";
  options = none;
  steered = false;
  turn_id = "";
}

-- `m[t][c]`: the zero value where it is missing
abbrev pub attempt_at : String → String → ThreadMap SendAttempt → SendAttempt
attempt_at t c m = elim (find t c m) [ none ↦ missing_attempt | some attempt ↦ attempt ]

-- The loop of the undo.
unfoldable pub restore_options :
    List SavedOption → ThreadMap SendAttempt → Option (ThreadMap SendAttempt)
restore_options [] sends = some sends
restore_options (saved ∷ rest) sends =
    let attempt = record (attempt_at saved.thread_id saved.client_id sends) {
      options = saved.options;
    } in
    elim (assign saved.thread_id saved.client_id attempt sends) [
      | none ↦ none
      | some sends' ↦ restore_options rest sends'
    ]

unfoldable pub write_compacted : List SavedOption → ThreadMap SendAttempt → Action (Unit {0})
write_compacted [] sends w s = (ok tt, s)
write_compacted (saved ∷ changed) sends w s =
    finish w (with_sends s sends)
      (Option.map (sends_of s.memory) (restore_options (saved ∷ changed) sends)) tt

-- The action. That the prefix is not empty is tested before it.
unfoldable pub compact_accepted_send_options : String → Action (Unit {0})
compact_accepted_send_options prefix w s =
    let start : Compacting = record { sends = s.memory.send_attempts; changed = [] } in
    elim (compact_threads prefix s.memory.send_attempts start) [
      | none ↦ (panic, s)
      | some c ↦ write_compacted c.changed c.sends w s
    ]
