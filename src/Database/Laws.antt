-- ===== src/Database/Laws.antt =====
-- Laws of buckets that follow from their interface.
use hyperspace.Common.{
  ◌==◌, if◌then◌else◌, true, All, List, [], ◌∷◌, ◌≢◌, false, ==_refl, refl, ℕ, ◌+◌, ◌≡◌, ap, subst,
  none, some, arith,
}
use hyperspace.Database.{Bolt, weigh}

module _ (db : Bolt) {V : Type 0} where
  open db use {Bucket, get, put, delete, for_each}

  pub get-put_self : (b : Bucket V) (k : ℕ) (v : V) → get (put b k v) k ≡ some v
  get-put_self b k v = ground (arith, db.get-put b k v k)

  pub get-delete_self : (b : Bucket V) (k : ℕ) → get (delete b k) k ≡ none
  get-delete_self b k = ground (arith, db.get-delete b k k)

  pub delete-put : (b : Bucket V) (k : ℕ) (v : V) → get b k ≡ none → delete (put b k v) k ≡ b
  delete-put b k v h =
      db.ext _ _ (λ j. ground (arith, db.get-delete (put b k v) k j, db.get-put b k v j, h))

  pub put-delete : (b : Bucket V) (k : ℕ) (v : V) → get b k ≡ some v → put (delete b k) k v ≡ b
  put-delete b k v h =
      db.ext _ _ (λ j. ground (arith, db.get-put (delete b k) k v j, db.get-delete b k j, h))

  pub put-put : (b : Bucket V) (k : ℕ) (u v : V) → put (put b k u) k v ≡ put b k v
  put-put b k u v =
      db.ext _ _
        (λ j. ground (arith, db.get-put (put b k u) k v j, db.get-put b k u j, db.get-put b k v j))

  pub put_same : (b : Bucket V) (k : ℕ) (v : V) → get b k ≡ some v → put b k v ≡ b
  put_same b k v h = db.ext _ _ (λ j. ground (arith, db.get-put b k v j, h))

  -- Removing a pair takes its weight off.
  pub weigh-delete :
      (b : Bucket V) (k : ℕ) (v : V) (w : ℕ → V → ℕ)
      → get b k ≡ some v
      → weigh w (for_each b) ≡ w k v + weigh w (for_each (delete b k))
  weigh-delete b k v w h =
      subst (λ c. weigh w (for_each c) ≡ w k v + weigh w (for_each (delete b k)))
        (put-delete b k v h) (db.weigh-put (delete b k) k v w (get-delete_self b k))

  put-delete_any : (b : Bucket V) (k : ℕ) (v : V) → put (delete b k) k v ≡ put b k v
  put-delete_any b k v =
      db.ext _ _ (λ j.
        ground (arith, db.get-put (delete b k) k v j, db.get-delete b k j, db.get-put b k v j))

  -- A pair that is overwritten gives its weight for the new one's.
  pub weigh-put_old :
      (b : Bucket V) (k : ℕ) (u v : V) (w : ℕ → V → ℕ)
      → get b k ≡ some u
      → weigh w (for_each (put b k v)) + w k u ≡ w k v + weigh w (for_each b)
  weigh-put_old b k u v w h = omega (
    arith,
    db.weigh-put (delete b k) k v w (get-delete_self b k),
    weigh-delete b k u w h,
    ap (λ c. weigh w (for_each c)) (put-delete_any b k v),
  )

  absent-weigh :
      (k : ℕ) (ps : List (ℕ × V))
      → All (λ p. p.0 ≢ k) ps
      → weigh (λ j v. if j == k then 1 else 0) ps ≡ 0
  absent-weigh k [] h = refl
  absent-weigh k ((j, v) ∷ ps) h = ground (arith, h.0, absent-weigh k ps h.1)

  -- ForEach leaves no pair out.
  pub visited :
      (b : Bucket V) (k : ℕ) (v : V)
      → get b k ≡ some v
      → All (λ p. p.0 ≢ k) (for_each b)
      → true ≡ false
  visited b k v h a = ground (
    arith,
    weigh-delete b k v (λ j u. if j == k then 1 else 0) h,
    absent-weigh k (for_each b) a,
    ==_refl k,
  )
