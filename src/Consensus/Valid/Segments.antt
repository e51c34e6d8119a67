-- ===== src/Consensus/Valid/Segments.antt =====
-- The segments of a file, as storage proofs count and measure them.
use native.Mathlib.Nat.{mod-lt}
use hyperspace.Common.{
  ℕ, ◌+◌, ◌-◌, ◌*◌, ◌^◌, ◌≤◌, ◌<◌, ◌≡◌, subst, some, leb, sub64, ok, arith, guard_sound,
  or_err_sound, ok_injective,
}
use hyperspace.Types.Transaction.{FileContract}
use hyperspace.Database.{Bolt}
use hyperspace.Consensus.State.{
  Tx, Env, returns, unrecognized_file_contract_id, unfinished_file_contract,
}
use hyperspace.Consensus.Valid.{calculate_leaves, segment_length, storage_proof_segment}

-- A file of a uint64 size above zero consists of its segments: all but the last have 64 bytes, and
-- the last has the rest, at least one byte and at most 64.
pub segment_length-cover :
    (size : ℕ)
    → 0 < size
    → size < 2 ^ 64
    → ((calculate_leaves size - 1) * 64 + segment_length size (calculate_leaves size - 1) ≡ size)
      × (0 < segment_length size (calculate_leaves size - 1))
      × ((index : ℕ) → segment_length size index ≤ 64)
      × ((index : ℕ) → index < calculate_leaves size - 1 → segment_length size index ≡ 64)
unfolding calculate_leaves segment_length
segment_length-cover size positive bound =
    (ground arith, ground arith, λ i. ground arith, λ i h. ground arith)

-- There is always a segment to prove.
leaves_positive : (size : ℕ) → 0 < calculate_leaves size
unfolding calculate_leaves
leaves_positive size = ground arith

-- The segment that a storage proof has to prove is one of the contract's file, and the block that
-- picks it, the one before the window, has a height of at most the current one.
pub storage_proof_segment-bound :
    (db : Bolt) (e : Env) (tx : Tx db) (fcid index : ℕ)
    → storage_proof_segment db e tx fcid ≡ ok index
    → (fc : FileContract) × (db.get tx.file_contracts fcid ≡ some fc)
      × (sub64 fc.window_start 1 ≤ tx.block_height)
      × (index < calculate_leaves fc.file_size)
unfolding storage_proof_segment
storage_proof_segment-bound db e tx fcid index h =
    let (fc, found, h1) =
      or_err_sound (db.get tx.file_contracts fcid) (returns unrecognized_file_contract_id) _ h in
    let (open_window, h2) =
      guard_sound (leb (sub64 fc.window_start 1) tx.block_height) (returns unfinished_file_contract)
        _ h1 in
    (
      fc,
      found,
      ground arith,
      subst (λ i. i < calculate_leaves fc.file_size) (ok_injective h2)
          (mod-lt _ (leaves_positive fc.file_size)),
    )
