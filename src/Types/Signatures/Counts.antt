-- ===== src/Types/Signatures/Counts.antt =====
-- What validSignatures of types/signatures.go promises of a transaction that it accepts.
use hyperspace.Common.{
  ℕ, zero, suc, ◌+◌, ◌≤◌, ◌<◌, ◌≡◌, ◌≢◌, refl, ap, ◌∙◌, subst, inl, inr, List, [], ◌∷◌, some, true,
  false, arith, length, get_elem?, All, All-mono, Distinct, contains, contains-All, ok, >>=_inv,
  >>_sound, for_each_sound, ◌==◌, if◌then◌else◌, Bool-cases, not, Bool, guard_sound, or_err_sound,
  leb→le, sym,
}
use hyperspace.Common.Result.{Result}
use hyperspace.Types.Crypto.{Crypto, copy_into}
use hyperspace.Types.Transaction.{
  SiaPublicKey, UnlockConditions, SiacoinInput, FileContractRevision, TransactionSignature,
  Transaction,
}
use hyperspace.Types.Signatures.{
  InputSignatures, SigMap, find_sigs, update_sigs, use_signature, use_signatures, spend,
  check_signed, verify, signature_entropy, signature_ed25519, add_inputs, add_revisions,
  valid_signatures,
}
use hyperspace.Types.Signatures.Map.{
  find_sigs-update, find_sigs-signed, add_all-keeps, add_all-enters, initial,
}

-- The keys that the signatures for one id use, the last first, before those of `used`.
abbrev pub keys_onto : ℕ → List TransactionSignature → List ℕ → List ℕ
keys_onto id [] used = used
keys_onto id (sig ∷ sigs) used =
    keys_onto id sigs (if sig.parent_id == id then sig.public_key_index ∷ used else used)

abbrev pub keys_of : ℕ → List TransactionSignature → List ℕ
keys_of id sigs = keys_onto id sigs []

-- The signature at position i names a key of the list, not one for entropy, and where that is an
-- Ed25519 key, the signature of the transaction's hash verifies.
abbrev pub IsVerified : Crypto → Transaction → ℕ → List SiaPublicKey → TransactionSignature → Type 0
IsVerified c t i keys sig =
    (key : SiaPublicKey) × (get_elem? keys sig.public_key_index ≡ some key)
    × (key.algorithm ≢ signature_entropy)
    × (key.algorithm ≡ signature_ed25519
        → c.verify_hash (c.sig_hash t i) (copy_into 32 key.key) (copy_into 64 sig.signature) ≡ true)

-- The signatures for the id, of a list that starts at position i.
abbrev pub AllVerified :
    Crypto → Transaction → ℕ → ℕ → List SiaPublicKey → List TransactionSignature → Type 0
AllVerified c t id i keys [] = Unit
AllVerified c t id i keys (sig ∷ sigs) =
    (sig.parent_id ≡ id → IsVerified c t i keys sig) × AllVerified c t id (suc i) keys sigs

-- The state of one entry while the loop runs.
record Tracks (c : Crypto) (t : Transaction) (id i : ℕ) (s s' : InputSignatures)
    (sigs : List TransactionSignature) : Type 0 where
  verified : AllVerified c t id i s.possible_keys sigs
  used : s'.used_keys ≡ keys_onto id sigs s.used_keys
  counted :
      s'.remaining_signatures + length s'.used_keys ≡ s.remaining_signatures + length s.used_keys
  keys : s'.possible_keys ≡ s.possible_keys
  distinct : Distinct s'.used_keys
  in_range : All (λ k. k < length s'.possible_keys) s'.used_keys

ok-injective {ℓ κ} :
    {E : Type ℓ} {A : Type κ} {a b : A} → ◌≡◌ {A = Result E A} (ok a) (ok b) → a ≡ b
ok-injective h = cc

ne-zero : (n : ℕ) → not (n == 0) ≡ true → n ≢ 0
ne-zero n h = ground arith

not-true : (b : Bool) → not b ≡ true → b ≡ false
not-true b h = ground arith

get_elem?-lt {ℓ} :
    {A : Type ℓ} (xs : List A) (i : ℕ) {a : A} → get_elem? xs i ≡ some a → i < length xs
get_elem?-lt [] i h = cc
get_elem?-lt (x ∷ xs) zero h = omega arith
get_elem?-lt (x ∷ xs) (suc i) h = omega (arith, get_elem?-lt xs i h)

module _ (c : Crypto) (t : Transaction) (height : ℕ) where
  verify_inv :
      (i : ℕ) (keys : List SiaPublicKey) (key : SiaPublicKey) (sig : TransactionSignature)
      → get_elem? keys sig.public_key_index ≡ some key
      → verify c t height i key sig ≡ ok tt
      → IsVerified c t i keys sig
  unfolding verify
  verify_inv i keys key sig there h = (key, there, ground arith, λ ed. ground arith)

  -- What one round has checked, and the map after it.
  use_signature-ok :
      (i : ℕ) (sig : TransactionSignature) (m m' : SigMap)
      → use_signature c t height i sig m ≡ ok m'
      → (s : InputSignatures) × (find_sigs sig.parent_id m ≡ some s)
        × (s.remaining_signatures ≢ 0)
        × (contains s.used_keys sig.public_key_index ≡ false)
        × (sig.public_key_index < length s.possible_keys)
        × (sig.timelock ≤ height)
        × IsVerified c t i s.possible_keys sig
        × (m' ≡ update_sigs sig.parent_id (spend sig.public_key_index s) m)
  unfolding use_signature
  use_signature-ok i sig m m' h =
      let (s, found, h1) = or_err_sound _ _ _ h in
      let (left, h2) = guard_sound _ _ _ h1 in
      let (unused, h3) = guard_sound _ _ _ h2 in
      let (k, key, h4) = or_err_sound _ _ _ h3 in
      let (unlocked, h5) = guard_sound _ _ _ h4 in
      let (verified, h6) = >>_sound _ _ h5 in
      (
        s,
        found,
        ne-zero _ left,
        not-true _ unused,
        get_elem?-lt s.possible_keys sig.public_key_index key,
        leb→le _ _ unlocked,
        verify_inv i s.possible_keys k sig key verified,
        sym (ok-injective h6),
      )

  use_signatures-Tracks :
      (i : ℕ) (sigs : List TransactionSignature) (m m' : SigMap) (id : ℕ) (s : InputSignatures)
      → use_signatures c t height i sigs m ≡ ok m'
      → find_sigs id m ≡ some s
      → Distinct s.used_keys
      → All (λ k. k < length s.possible_keys) s.used_keys
      → (s' : InputSignatures) × (find_sigs id m' ≡ some s') × Tracks c t id i s s' sigs
  unfolding use_signatures
  use_signatures-Tracks i [] m m' id s h f d r = (
    s,
    ground arith,
    record { verified = tt; used = refl; counted = refl; keys = refl; distinct = d; in_range = r },
  )
  use_signatures-Tracks i (sig ∷ sigs) m m' id s h f d r =
      let (n, p, q) = >>=_inv _ _ h in
      let (s0, f0, left, unused, index, unlocked, genuine, e) = use_signature-ok i sig m n p in
      elim (Bool-cases (sig.parent_id == id)) [
        | inl hit ↦
            let same : s0 ≡ s = ground (arith, f0, f, hit) in
            let some_left : s.remaining_signatures ≢ 0 =
              subst (λ x. x.remaining_signatures ≢ 0) same left in
            let entry : find_sigs id n ≡ some (spend sig.public_key_index s) = ground (
              arith,
              e,
              same,
              hit,
              find_sigs-update sig.parent_id id (spend sig.public_key_index s0) s0 m,
            ) in
            let (s', f', tr) =
              use_signatures-Tracks (suc i) sigs n m' id (spend sig.public_key_index s) q entry
                (
                  contains-All _ _
                      (subst (λ x. contains x.used_keys sig.public_key_index ≡ false) same unused),
                  d,
                )
                (subst (λ x. sig.public_key_index < length x.possible_keys) same index, r) in
            (
              s',
              f',
              record {
                verified = (
                  λ p.
                      subst (λ (x : InputSignatures). IsVerified c t i x.possible_keys sig) same
                        genuine,
                  tr.verified,
                );
                used =
                    tr.used
                    ∙ sym (
                        ap
                          (λ b.
                            keys_onto id sigs
                              (if b then sig.public_key_index ∷ s.used_keys else s.used_keys))
                          hit);
                counted = omega (arith, tr.counted, some_left);
                keys = tr.keys;
                distinct = tr.distinct;
                in_range = tr.in_range;
              },
            )
        | inr miss ↦
            let entry : find_sigs id n ≡ some s = ground (
              arith,
              e,
              miss,
              find_sigs-update sig.parent_id id (spend sig.public_key_index s0) s0 m,
            ) in
            let (s', f', tr) = use_signatures-Tracks (suc i) sigs n m' id s q entry d r in
            (
              s',
              f',
              record {
                verified =
                    (λ p. let absurd : true ≡ false = ground (arith, p, miss) in cc, tr.verified);
                used =
                    tr.used
                    ∙ sym (
                        ap
                          (λ b.
                            keys_onto id sigs
                              (if b then sig.public_key_index ∷ s.used_keys else s.used_keys))
                          miss);
                counted = tr.counted;
                keys = tr.keys;
                distinct = tr.distinct;
                in_range = tr.in_range;
              },
            )
      ]

  use_signatures-unlocked :
      (i : ℕ) (sigs : List TransactionSignature) (m m' : SigMap)
      → use_signatures c t height i sigs m ≡ ok m'
      → All (λ (sig : TransactionSignature). sig.timelock ≤ height) sigs
  unfolding use_signatures
  use_signatures-unlocked i [] m m' h = tt
  use_signatures-unlocked i (sig ∷ sigs) m m' h =
      let (n, p, q) = >>=_inv _ _ h in
      let (s0, f0, left, unused, index, unlocked, genuine, e) = use_signature-ok i sig m n p in
      (unlocked, use_signatures-unlocked (suc i) sigs n m' q)

-- How often an id is signed for.
abbrev pub count_for : ℕ → List TransactionSignature → ℕ
count_for id sigs = length (keys_of id sigs)

-- The signatures for one set of unlock conditions: as many as it requires, at distinct indices of its
-- public keys, each of them verified.
pub record IsSigned (c : Crypto) (t : Transaction) (id : ℕ) (uc : UnlockConditions) : Type 0 where
  pub count : count_for id t.transaction_signatures ≡ uc.signatures_required
  pub distinct : Distinct (keys_of id t.transaction_signatures)
  pub in_range : All (λ k. k < length uc.public_keys) (keys_of id t.transaction_signatures)
  pub verified : AllVerified c t id 0 uc.public_keys t.transaction_signatures

module _ (c : Crypto) (t : Transaction) (height : ℕ) where
  entry-IsSigned :
      (m m' : SigMap) (id i : ℕ) (uc : UnlockConditions)
      → use_signatures c t height 0 t.transaction_signatures m ≡ ok m'
      → All (λ e. check_signed e ≡ ok tt) m'
      → find_sigs id m ≡ some (initial uc i)
      → IsSigned c t id uc
  entry-IsSigned m m' id i uc h a f =
      let (s', f', tr) =
        use_signatures-Tracks c t height 0 t.transaction_signatures m m' id (initial uc i) h f tt
          tt in
      let none_left = find_sigs-signed id s' m' a f' in
      record {
        verified = tr.verified;
        count = omega (arith, tr.counted, none_left, ap length tr.used);
        distinct = subst Distinct tr.used tr.distinct;
        in_range =
            subst (λ ks. All (λ k. k < length uc.public_keys) ks) tr.used
              (subst (λ ks. All (λ k. k < length ks) s'.used_keys) tr.keys tr.in_range);
      }

  -- Where validSignatures returns nil, each input and each revision is signed as often as its unlock
  -- conditions require, at distinct indices into their public keys, and no signature is premature. The
  -- key of each of these signatures is not one for entropy, and with an Ed25519 key the signature of the
  -- transaction's hash verifies.
  pub valid_signatures_sound :
      valid_signatures c t height ≡ ok tt
      → All (λ (x : SiacoinInput). IsSigned c t x.parent_id x.unlock_conditions) t.siacoin_inputs
        × All
            (λ (x : FileContractRevision). IsSigned c t x.parent_id x.unlock_conditions)
            t.file_contract_revisions
        × All (λ (sig : TransactionSignature). sig.timelock ≤ height) t.transaction_signatures
  unfolding valid_signatures add_inputs add_revisions
  valid_signatures_sound h =
      let (covered, h1) = >>_sound _ _ h in
      let (m1, ins, h2) = >>=_inv _ _ h1 in
      let (m2, revs, h3) = >>=_inv _ _ h2 in
      let (m3, used, h4) = >>=_inv _ _ h3 in
      let signed = for_each_sound check_signed m3 h4 in
      (
        All-mono
            (λ x e.
              entry-IsSigned m2 m3 x.parent_id e.0 x.unlock_conditions used signed
                (add_all-keeps _ _ 0 t.file_contract_revisions m1 m2 x.parent_id _ revs e.1))
            t.siacoin_inputs (add_all-enters _ _ 0 t.siacoin_inputs [] m1 ins),
        All-mono (λ x e. entry-IsSigned m2 m3 x.parent_id e.0 x.unlock_conditions used signed e.1)
            t.file_contract_revisions (add_all-enters _ _ 0 t.file_contract_revisions m1 m2 revs),
        use_signatures-unlocked c t height 0 t.transaction_signatures m2 m3 used,
      )
