-- ===== src/Sync/Limiter/Outlay.antt =====
-- How many units of a Limiter are out (sync/limiter.go).
use hyperspace.Common.{
  ℕ, ◌+◌, ◌≤◌, ◌≡◌, ◌⊎◌, inl, inr, refl, subst, List, [], ◌∷◌, ◌++◌, Bool, true, false, Option,
  none, some, sum, arith,
}
use hyperspace.Sync.Limiter.{
  Limiter, Threads, must_wait, finish, grant, release, Step, enters, cancels, sleeps, leaves,
  gives_back, sets, wakes, Waiter, Steps, stop, go,
}

-- The list has the item.
pub data Has (k : ℕ) : List ℕ → Type 0 where
  here : (xs : List ℕ) → Has k (k ∷ xs)
  there : (x : ℕ) (xs : List ℕ) → Has k xs → Has k (x ∷ xs)

-- The units that are out are those of the granted requests, at most the bound, unless a single request
-- has them all.
pub record IsWithin (bound : ℕ) (t : Threads) : Type 0 where
  pub account : sum t.granted ≡ t.limiter.current
  pub limited : t.limiter.limit ≤ bound
  pub few : (t.limiter.current ≤ bound) ⊎ Has t.limiter.current t.granted

sum-take_out :
    (before after : List ℕ) (n : ℕ) → sum (before ++ (n ∷ after)) ≡ n + sum (before ++ after)
sum-take_out [] after n = refl
sum-take_out (m ∷ before) after n = omega (arith, sum-take_out before after n)

Has-sum : (k : ℕ) (xs : List ℕ) → Has k xs → k ≤ sum xs
Has-sum k xs (here rest) = omega arith
Has-sum k xs (there x rest h) = omega (arith, Has-sum k rest h)

taken_or_left :
    (k n : ℕ) (before after : List ℕ)
    → Has k (before ++ (n ∷ after))
    → (n ≡ k) ⊎ Has k (before ++ after)
taken_or_left k n [] after (here rest) = inl refl
taken_or_left k n [] after (there x rest h) = inr h
taken_or_left k n (m ∷ before) after (here rest) = inr (here (before ++ after))
taken_or_left k n (m ∷ before) after (there x rest h) = elim (taken_or_left k n before after h) [
  | inl p ↦ inl p
  | inr q ↦ inr (there m (before ++ after) q)
]

release_inv :
    (l l' : Limiter) (n : ℕ)
    → release l n ≡ some l'
    → (l'.current + n ≡ l.current) × (l'.limit ≡ l.limit)
unfolding release
release_inv l l' n h = (ground arith, ground arith)

room_or_none :
    (l : Limiter) (n : ℕ)
    → must_wait l n false ≡ false
    → (l.current + n ≤ l.limit) ⊎ (l.current ≡ 0)
unfolding must_wait
room_or_none l n h = ground arith

left_IsWithin :
    (bound : ℕ) (l : Limiter) (granted : List ℕ) (n : ℕ) (cancelled : Bool)
    {waiting : Option Waiter}
    → must_wait l n cancelled ≡ false
    → IsWithin bound (record { limiter = l; waiting = waiting; granted = granted })
    → IsWithin bound (record {
      limiter = (finish l n cancelled).0;
      waiting = none;
      granted = grant (finish l n cancelled).1 n granted;
    })
unfolding finish
left_IsWithin bound l granted n true h i = record {
  account = i.account;
  limited = i.limited;
  few = i.few;
}
left_IsWithin bound l granted n false h i = record {
  account = omega (arith, i.account);
  limited = i.limited;
  few = elim (room_or_none l n h) [
    | inl p ↦ inl (omega (arith, p, i.limited))
    | inr z ↦ inr (
        subst (λ k. Has k (n ∷ granted)) {x = n} {y = l.current + n} (omega (arith, z))
          (here granted))
  ];
}

Step-IsWithin : (bound : ℕ) (t u : Threads) → Step bound t u → IsWithin bound t → IsWithin bound u
Step-IsWithin bound t u (enters l granted n) i = record {
  account = i.account;
  limited = i.limited;
  few = i.few;
}
Step-IsWithin bound t u (cancels l granted w) i = record {
  account = i.account;
  limited = i.limited;
  few = i.few;
}
Step-IsWithin bound t u (sleeps l granted w h) i = record {
  account = i.account;
  limited = i.limited;
  few = i.few;
}
Step-IsWithin bound t u (leaves l granted w up h) i =
    left_IsWithin bound l granted w.units w.cancelled h i
Step-IsWithin bound t u (gives_back l l' waiting before after n h) i =
    let (less, same) = release_inv l l' n h in
    let total = sum-take_out before after n in
    record {
      account = omega (arith, i.account, total, less);
      limited = omega (arith, i.limited, same);
      few = elim i.few [
        | inl p ↦ inl (omega (arith, p, less))
        | inr all ↦ elim (taken_or_left l.current n before after all) [
          | inl p ↦ inl (omega (arith, p, less))
          | inr left ↦ inr (
              subst (λ k. Has k (before ++ after)) {x = l.current} {y = l'.current}
                (omega (arith, less, total, i.account, Has-sum l.current (before ++ after) left))
                left)
        ]
      ];
    }
Step-IsWithin bound t u (sets l waiting granted limit h) i = record {
  account = i.account;
  limited = h;
  few = i.few;
}
Step-IsWithin bound t u (wakes l waiting granted k h) i = record {
  account = i.account;
  limited = i.limited;
  few = i.few;
}

-- Requests, cancellations, returns of granted units and new limits, as long as no limit is above the
-- bound, keep the account: the units that are out are those of the granted requests, and they are at
-- most the bound, unless a single request has them all.
pub Steps-IsWithin :
    (bound : ℕ) (t u : Threads) → Steps bound t u → IsWithin bound t → IsWithin bound u
Steps-IsWithin bound t u (stop s) i = i
Steps-IsWithin bound t u (go s v w step rest) i =
    Steps-IsWithin bound v w rest (Step-IsWithin bound s v step i)
