-- ===== src/Ledger/Moves/Compaction.antt =====
-- The moves made by `CompactAcceptedSendOptions` (codex/client.go).

use codex_web.Common.{String, refl, inl, inr, false, List, [], ◌∷◌, arith}
use codex_web.ThreadMap.{ThreadMap, find}
use codex_web.Ledger.Types.{SendAttempt, Store, WriteOutcome, with_sends}
use codex_web.Ledger.Sends.{sends_of}
use codex_web.Ledger.Compaction.{SavedOption, write_compacted, compact_accepted_send_options}
use codex_web.Ledger.Compacted.{Lost, compacted}
use codex_web.Ledger.Moves.{stay, compact, Lands, finish-Lands}
use codex_web.Ledger.Moves.Sends.{Moves}

module _ (w : WriteOutcome) (s : Store) where
  write_compacted-Moves :
      (changed : List SavedOption) (sends : ThreadMap SendAttempt)
      → ((u d : String) → Lost (find u d s.memory.send_attempts) (find u d sends))
      → Lands s (Moves false s.memory) (write_compacted changed sends w s)
  unfolding write_compacted
  write_compacted-Moves [] sends lost = inl refl
  write_compacted-Moves (saved ∷ changed) sends lost =
      finish-Lands w s (with_sends s sends) _ tt (Moves false s.memory) refl moved
    where
      moved : Moves false s.memory (sends_of s.memory sends)
      moved u d = elim (lost u d) [
        | inl same ↦ stay (ground (arith, same))
        | inr (x, found, state, bare) ↦ compact x found state (ground (arith, bare))
      ]

  pub compact_accepted_send_options-Moves :
      (prefix : String) → Lands s (Moves false s.memory) (compact_accepted_send_options prefix w s)
  unfolding compact_accepted_send_options
  compact_accepted_send_options-Moves prefix =
      let (c, ran, i) = compacted s.memory.send_attempts prefix in
      rw (ran, compact_accepted_send_options) (write_compacted-Moves c.changed c.sends i.lost)
