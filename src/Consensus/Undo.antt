-- ===== src/Consensus/Undo.antt =====
-- What it takes to undo diffs one by one from the end, as commitNodeDiffs of
-- modules/consensus/diffs.go does for each of the three lists of a block.
pub mod Outputs
pub mod Contracts
pub mod Delayed
pub mod Record
pub mod Transaction
pub mod Matured
pub mod Missed
pub mod Expired
pub mod Revert
pub mod Generated
pub mod Stored
pub mod Block
use mathlib.Core.List.{reverse, reverse-append}
use hyperspace.Common.{
  ℕ, List, [], ◌∷◌, ◌++◌, ◌≡◌, refl, ap, ◌∙◌, false, Option, none, some, ok, ◌==◌, if◌then◌else◌,
  fold_result,
}
use hyperspace.Types.Transaction.{FileContract}
use hyperspace.Database.{Bolt}
use hyperspace.Consensus.State.{Tx, Env, Act}
use hyperspace.Consensus.Store.{bucket_or_new}

-- The same environment in a release build.
abbrev pub release : Env → Env
release e = record e { debug = false }

-- `Sees s x`: the state s shows x in the part that the diffs are about; `Frame s' s`: only that part
-- differs. Undoing the diffs shows x in place of x'.
module _ {S D X : Type 0} (g : S → D → Act S) (Sees : S → X → Type 0) (Frame : S → S → Type 0) where
  abbrev pub Reverts : List D → X → X → Type 0
  Reverts ds x' x =
      (s' : S)
      → Sees s' x'
      → (s : S) × (fold_result g s' (reverse ds) ≡ ok s) × Sees s x × Frame s' s

  pub Reverts-nil : ((s : S) → Frame s s) → (x : X) → Reverts [] x x
  Reverts-nil same x s h = (s, refl, h, same s)

  pub Reverts-snoc :
      ((a b c : S) → Frame a b → Frame b c → Frame a c)
      → (ds : List D) (d : D) (x2 x1 x0 : X)
      → ((s' : S) → Sees s' x2 → (s : S) × (g s' d ≡ ok s) × Sees s x1 × Frame s' s)
      → Reverts ds x1 x0
      → Reverts (ds ++ (d ∷ [])) x2 x0
  Reverts-snoc trans ds d x2 x1 x0 last before s2 h =
      let (s1, run1, sees1, frame1) = last s2 h in
      let (s0, run0, sees0, frame0) = before s1 sees1 in
      (s0, rw (reverse-append ds (d ∷ [])) (rw run1 run0), sees0, trans _ _ _ frame1 frame0)

module _ (db : Bolt) where
  -- What the expiration buckets hold for a contract at a height.
  abbrev pub due : db.Bucket (db.Bucket (Unit {0})) → ℕ → ℕ → Option (Unit {0})
  due expirations height id = db.get (bucket_or_new db (db.get expirations height)) id

  abbrev pub expected : Option FileContract → ℕ → Option (Unit {0})
  expected none height = none
  expected (some fc) height = if fc.window_end == height then some tt else none

  -- The expiration buckets hold each contract at the end of its window, and nothing else.
  abbrev pub IsScheduled : db.Bucket FileContract → db.Bucket (db.Bucket (Unit {0})) → Type 0
  IsScheduled contracts expirations =
      (height id : ℕ) → due expirations height id ≡ expected (db.get contracts id) height
