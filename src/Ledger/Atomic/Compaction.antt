-- ===== src/Ledger/Atomic/Compaction.antt =====
-- Atomicity of `CompactAcceptedSendOptions` (codex/client.go).
use mathlib.Core.Option
use codex_web.Common.{String, ◌≡◌, refl, ap, some, List, [], ◌∷◌}
use codex_web.ThreadMap.{ThreadMap}
use codex_web.Ledger.Types.{SendAttempt, Store, WriteOutcome, with_sends}
use codex_web.Ledger.Sends.{sends_of}
use codex_web.Ledger.Compaction.{
  SavedOption, write_compacted, restore_options, compact_accepted_send_options,
}
use codex_web.Ledger.Compacted.{Alike, compacted}
use codex_web.Ledger.Atomic.{IsAtomic, IsAtomic-ok, IsAtomic-finish}

module _ (w : WriteOutcome) (s : Store) where
  write_compacted-IsAtomic :
      (changed : List SavedOption) (sends before : ThreadMap SendAttempt)
      → restore_options changed sends ≡ some before
      → Alike before s.memory.send_attempts
      → IsAtomic w s (write_compacted changed sends w s)
  unfolding write_compacted
  write_compacted-IsAtomic [] sends before back alike = IsAtomic-ok w s _ _ refl
  write_compacted-IsAtomic (saved ∷ changed) sends before back alike =
      IsAtomic-finish w s (with_sends s sends) _ (sends_of s.memory before) _ refl
        (ap (Option.map (sends_of s.memory)) back)
        (record {
          queue = λ u d. refl;
          sends = alike;
          deletions = λ u d. refl;
          operations = λ k. refl;
        })

  pub compact_accepted_send_options-IsAtomic :
      (prefix : String) → IsAtomic w s (compact_accepted_send_options prefix w s)
  unfolding compact_accepted_send_options
  compact_accepted_send_options-IsAtomic prefix =
      let (c, ran, i) = compacted s.memory.send_attempts prefix in
      let (before, back, alike) = i.restores c.sends (λ u d. refl) in
      rw (ran, compact_accepted_send_options)
        (write_compacted-IsAtomic c.changed c.sends before back alike)
