-- ===== src/Consensus/Coins.antt =====
-- The coins that the consensus database holds: those of the outputs, of the contracts, and of the outputs
-- that are yet to mature. The functions that move them are those of modules/consensus/applytransaction.go
-- and maintenance.go.
pub mod Moves
pub mod Delays
pub mod Outputs
pub mod Contracts
pub mod Revisions
pub mod Transactions
pub mod Maturing
pub mod Expiring
pub mod Blocks
pub mod Examples
use hyperspace.Common.{ℕ, ◌+◌, ◌≡◌, refl, ◌∙◌, arith, some}
use hyperspace.Types.Transaction.{SiacoinOutput, FileContract}
use hyperspace.Types.Sums.{coins}
use hyperspace.Database.{Bolt, weigh}
use hyperspace.Consensus.State.{Tx}
use hyperspace.Consensus.Apply.{Work}

abbrev pub output_value : ℕ → SiacoinOutput → ℕ
output_value id sco = sco.value

abbrev pub contract_value : ℕ → FileContract → ℕ
contract_value id fc = fc.payout

-- The outputs of a contract have its coins, whether it is proved or missed.
abbrev pub HasCoins : FileContract → Type 0
HasCoins fc =
    (coins fc.valid_proof_outputs ≡ fc.payout) × (coins fc.missed_proof_outputs ≡ fc.payout)

abbrev pub contracts_of : {db : Bolt} → Work db → db.Bucket FileContract
contracts_of w = w.tx.file_contracts

module _ (db : Bolt) where
  open db use {Bucket, get, for_each}

  abbrev pub bucket_value : ℕ → Bucket SiacoinOutput → ℕ
  bucket_value height b = weigh output_value (for_each b)

  abbrev pub total : Tx db → ℕ
  total tx =
      weigh output_value (for_each tx.siacoin_outputs)
      + weigh contract_value (for_each tx.file_contracts)
      + weigh bucket_value (for_each tx.delayed)

  abbrev pub IsFunded : Bucket FileContract → Type 0
  IsFunded contracts = (id : ℕ) (fc : FileContract) → get contracts id ≡ some fc → HasCoins fc

  -- Coins come in and go out, while the block stays.
  pub record Moved (w w' : Work db) (up down : ℕ) : Type 0 where
    pub balance : total w'.tx + down ≡ total w.tx + up
    pub same_height : w'.pb.height ≡ w.pb.height
    pub at_height : w'.tx.block_height ≡ w.tx.block_height
    pub same_block : w'.pb.block ≡ w.pb.block

  pub Moved-trans :
      (a b c : Work db) (u d u' d' : ℕ)
      → Moved a b u d
      → Moved b c u' d'
      → Moved a c (u + u') (d + d')
  Moved-trans a b c u d u' d' p q = record {
    balance = omega (arith, p.balance, q.balance);
    same_height = q.same_height ∙ p.same_height;
    at_height = q.at_height ∙ p.at_height;
    same_block = q.same_block ∙ p.same_block;
  }

  pub Moved-refl : (w : Work db) → Moved w w 0 0
  Moved-refl w = record { balance = refl; same_height = refl; at_height = refl; same_block = refl }

  -- What comes in and goes out counts by the difference.
  pub Moved-net :
      (a b : Work db) (u d u' d' : ℕ) → u + d' ≡ u' + d → Moved a b u d → Moved a b u' d'
  Moved-net a b u d u' d' same m = record {
    balance = omega (arith, m.balance);
    same_height = m.same_height;
    at_height = m.at_height;
    same_block = m.same_block;
  }
