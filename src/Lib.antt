-- ===== src/Lib.antt =====
-- A model of the ledger of the Hyperspace node: what a transaction and a block must satisfy, what
-- they change in the consensus database, and how a block is undone when the chain reorganizes; and of
-- the memory manager and the host tree of its renter and the limiter of its package sync.
--
-- The parts, and where they are modelled:
--   types/currency.go              Types/Currency.antt: the methods of Currency over the numbers
--   types/transactions.go, filecontracts.go, block.go, signatures.go (the structs)
--                                  Types/Transaction.antt
--   encoding/integers.go, marshal.go
--                                  Encoding.antt: integers as bytes, the methods of Encoder and
--                                  Decoder; Bytes, Reads and Extends below it hold the proofs
--   types/encoding.go              Types/Encoding.antt: the MarshalSia and UnmarshalSia methods, with
--                                  Encodable, RoundTrip and Truncated below it; Types/Size.antt: the
--                                  MarshalSiaSize methods, with Marshalled below it; Types/Words.antt:
--                                  the loops over the words of a Currency, with Least below it
--   types/target.go                Types/Target.antt: targets and fractions; Depths holds the proofs
--   types/signatures.go            Types/Signatures.antt: sortedUnique, validCoveredFields and
--                                  validSignatures; Fields, Map and Counts below it hold the proofs
--   types/validtransaction.go      Types/Standalone.antt: StandaloneValid and each of its checks;
--                                  Repeats, Windows and Exact below it hold the proofs
--   types/block.go, constants.go   Types/Subsidy.antt and Types/Constants.antt: coinbase, number of
--                                  coins, subsidies; Supply holds the proofs
--   modules/consensus/consensusdb.go, processedblock.go, modules/consensus.go
--                                  Consensus/State.antt (records) and Consensus/Store.antt (reads and
--                                  writes)
--   modules/consensus/diffs.go     Consensus/Diffs.antt and Consensus/Generate.antt
--   modules/consensus/applytransaction.go
--                                  Consensus/Apply.antt
--   modules/consensus/maintenance.go
--                                  Consensus/Maintenance.antt
--   modules/consensus/consistency.go
--                                  Consensus/Coins/Blocks.antt: checkSiacoinCount; Consensus/Coins and
--                                  its other modules hold the proofs on coins
--   modules/consensus/validtransaction.go
--                                  Consensus/Valid.antt; tryTransactionSet in Consensus/Generate.antt
--   modules/consensus/block_validation.go, block_rules.go
--                                  Consensus/BlockValidation.antt; Payouts, Exact and Median hold
--                                  the proofs
--   modules/consensus/difficulty.go
--                                  Consensus/Difficulty.antt; Clamps holds the proofs
--   modules/consensus/processedblock.go (heavierThan, childDepth)
--                                  Consensus/Weight.antt
--   modules/consensus/fork.go      Consensus/Fork.antt; Back, Undone and Branch hold the proofs
--   modules/consensus/accept.go, processedblock.go (newChild)
--                                  Consensus/Accept.antt; Tree holds the proofs
--   modules/consensus/changelog.go Consensus/ChangeLog.antt; Chain holds the proofs
--   sync/limiter.go                Sync/Limiter.antt; Outlay and Wakes below it hold the proofs
--   modules/renter/hostdb/hosttree Renter/HostTree.antt: the tree (hosttree.go); Weights, Draw, Balance,
--                                  Hosts and Refinement hold the proofs; Filter: addressfilter.go;
--                                  Random: SelectRandom, with its proofs below it, and VersionCmp
--                                  (build/version.go)
--   modules/renter/memory.go       Renter/Memory.antt; Release and Account below it hold the proofs
-- Consensus/Undo.antt and the modules below it hold the proofs about reverting blocks. The modules
-- called Examples run the functions on concrete inputs. Common.antt has the shared helpers.
--
-- How they interact: generateAndApplyDiff validates each transaction in the state that the ones
-- before it leave, applies it (each change is a diff, committed to the database and appended to the
-- lists of the processed block), then applies the maintenance of the block: miner payouts, outputs
-- that mature, contracts that expire. commitDiffSet replays the lists forwards, or backwards.
-- managedAcceptBlocks validates a block, puts it into the block tree, and, where it is heavier than
-- the current block, forks the chain to it and writes the change log. forkBlockchain follows a heavier
-- block back to the current path, reverts the path to there, and applies the new branch.
--
-- The state is passed explicitly: a database transaction is the record Tx of buckets, and a block
-- under way is the record Work of the database, the processed block and its header. A function that
-- can fail or panic returns a Result: an error that Go returns, or a panic, where a debug build
-- (build.DEBUG, a field of Env) checks more than a release build. Heights are uint64 and wrap (add64,
-- sub64); a Currency is a big integer. A hash, an id or a key of the database is the number that its
-- bytes spell, and a value of the database is the object that it encodes.
--
-- Parameters: the database (Database.antt; github.com/coreos/bbolt), with the documented laws of its
-- buckets, which Database/Sorted.antt meets with sorted lists; and the hashes and signatures of the
-- cryptographic libraries, with the ids that hash encodings (Types/Crypto.antt), of which nothing is
-- assumed. Loops are recursion on lists; bits in Types/Words.antt, the words of a big.Int, runs on
-- fuel, the number itself, which is more than it has words. The two loops of fork.go run on fuel
-- too: out of fuel is an outcome of its own (runs_on), which the height of the block, or the number
-- of blocks to revert, and one more rule out.
--
-- Not modelled: the header chain of light nodes and its maintenance; the filters and announcements of
-- headers; retries of future blocks, subscribers and broadcasts, which are other threads; the encoding
-- of values by reflection; the checksum that a debug build takes of the database, and the consistency
-- checks that are made at random; floats (MulFloat, Float64, Sqrt). The wallet, the rest of the
-- renter, the host, the transaction pool, the miner, the gateway, the explorer and the API are outside
-- of the model: they are network services, disk state and user interfaces around the ledger.
pub mod Common
pub mod Encoding
pub mod Types
pub mod Database
pub mod Consensus
pub mod Renter
pub mod Sync
