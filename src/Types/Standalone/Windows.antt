-- ===== src/Types/Standalone/Windows.antt =====
-- The rules for a contract and for a revision (types/validtransaction.go), read declaratively.
use hyperspace.Common.{ℕ, ◌<◌, ◌≡◌, arith, ok}
use hyperspace.Types.Currency.{equals, cmp}
use hyperspace.Types.Transaction.{FileContract, FileContractRevision}
use hyperspace.Types.Sums.{coins, coins-add_each}
use hyperspace.Types.Standalone.{correct_file_contract, correct_file_contract_revision}

-- A contract's window lies after the current height and is not empty.
abbrev pub IsWindow : ℕ → ℕ → ℕ → Type 0
IsWindow height start end = (height < start) × (start < end)

abbrev pub IsContract : ℕ → FileContract → Type 0
IsContract height fc =
    (height < fc.window_start)
    × (fc.window_start < fc.window_end)
    × (coins fc.valid_proof_outputs ≡ fc.payout)
    × (coins fc.missed_proof_outputs ≡ fc.payout)

abbrev pub IsRevision : ℕ → FileContractRevision → Type 0
IsRevision height fcr =
    (height < fcr.new_window_start)
    × (fcr.new_window_start < fcr.new_window_end)
    × (coins fcr.new_valid_proof_outputs ≡ coins fcr.new_missed_proof_outputs)

pub correct_file_contract_sound :
    (height : ℕ) (fc : FileContract)
    → correct_file_contract height fc ≡ ok tt
    → IsContract height fc
unfolding correct_file_contract equals cmp
correct_file_contract_sound height fc h =
    ground (arith, coins-add_each fc.valid_proof_outputs, coins-add_each fc.missed_proof_outputs)

pub correct_file_contract_complete :
    (height : ℕ) (fc : FileContract)
    → IsContract height fc
    → correct_file_contract height fc ≡ ok tt
unfolding correct_file_contract equals cmp
correct_file_contract_complete height fc h =
    ground (arith, coins-add_each fc.valid_proof_outputs, coins-add_each fc.missed_proof_outputs)

pub correct_file_contract_revision_sound :
    (height : ℕ) (fcr : FileContractRevision)
    → correct_file_contract_revision height fcr ≡ ok tt
    → IsRevision height fcr
unfolding correct_file_contract_revision equals cmp
correct_file_contract_revision_sound height fcr h =
    ground (
      arith,
      coins-add_each fcr.new_valid_proof_outputs,
      coins-add_each fcr.new_missed_proof_outputs,
    )

pub correct_file_contract_revision_complete :
    (height : ℕ) (fcr : FileContractRevision)
    → IsRevision height fcr
    → correct_file_contract_revision height fcr ≡ ok tt
unfolding correct_file_contract_revision equals cmp
correct_file_contract_revision_complete height fcr h =
    ground (
      arith,
      coins-add_each fcr.new_valid_proof_outputs,
      coins-add_each fcr.new_missed_proof_outputs,
    )
