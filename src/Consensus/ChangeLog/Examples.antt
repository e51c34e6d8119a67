-- ===== src/Consensus/ChangeLog/Examples.antt =====
-- A change log with an entry, and one more.
use hyperspace.Common.{ℕ, ◌≡◌, refl, [], ◌∷◌, ok, arith}
use hyperspace.Database.Sorted.{sorted}
use hyperspace.Consensus.Examples.{debug_env}
use hyperspace.Consensus.ChangeLog.{ChangeEntry, ChangeLog, append_change_log, genesis_log}
use hyperspace.Consensus.ChangeLog.Chain.{IsLog, last, Follows, append_change_log-IsLog}

abbrev entry : ℕ → ChangeEntry
entry id = record { reverted_blocks = []; applied_blocks = id ∷ [] }

genesis-IsLog : IsLog sorted debug_env (genesis_log sorted debug_env (entry 21)) (entry 21 ∷ [])
genesis-IsLog = record {
  tail_id = 521;
  tail = refl;
  not_zero = λ p. omega (arith, p);
  nothing_at_zero = refl;
  chain = last (entry 21) refl refl;
}

append_change_log-IsLog_example :
    (cl : ChangeLog sorted) × (append_change_log sorted debug_env
        (genesis_log sorted debug_env (entry 21))
        (entry 22)
      ≡ ok cl)
    × IsLog sorted debug_env cl (entry 21 ∷ entry 22 ∷ [])
    × Follows sorted debug_env cl (entry 21 ∷ entry 22 ∷ [])
append_change_log-IsLog_example =
    append_change_log-IsLog sorted debug_env (genesis_log sorted debug_env (entry 21))
      (entry 21 ∷ []) (entry 22) genesis-IsLog (λ p. omega (arith, p)) refl
