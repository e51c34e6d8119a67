-- ===== src/Sync/Limiter/Wakes.antt =====
-- No thread sleeps through its signal (sync/limiter.go).
use hyperspace.Common.{
  ℕ, ◌<◌, ◌≡◌, ◌⊎◌, inl, inr, refl, sym, ap, ◌∙◌, subst, [], Bool, true, false, Option, none, some,
  sum, arith,
}
use hyperspace.Sync.Limiter.{
  Limiter, Threads, Waiter, must_wait, finish, grant, release, woken, Step, enters, cancels, sleeps,
  leaves, gives_back, sets, wakes, Steps, stop, go,
}
use hyperspace.Sync.Limiter.Outlay.{IsWithin, Steps-IsWithin}

-- A thread that sleeps has to wait, or a signal is under way.
abbrev pub IsAlert : Threads → Type 0
IsAlert t =
    (w : Waiter)
    → t.waiting ≡ some w
    → w.asleep ≡ true
    → (must_wait t.limiter w.units w.cancelled ≡ true) ⊎ (0 < t.limiter.signals)

release-signals : (l l' : Limiter) (n : ℕ) → release l n ≡ some l' → 0 < l'.signals
unfolding release
release-signals l l' n h = ground arith

some_same : (v w : Waiter) → Path (Option Waiter) (some v) (some w) → v ≡ w
some_same v w h = cc

awake : (o : Option Waiter) (w : Waiter) → woken o ≡ some w → w.asleep ≡ false
awake none w h = cc
awake (some v) w h =
    ap (λ (x : Waiter). x.asleep) (sym (some_same (record v { asleep = false }) w h))

Step-IsAlert : (bound : ℕ) (t u : Threads) → Step bound t u → IsAlert t → IsAlert u
Step-IsAlert bound t u (enters l granted n) i w p sleeping =
    let same = some_same (record { units = n; cancelled = false; asleep = false }) w p in
    let absurd : false ≡ true = ap (λ (x : Waiter). x.asleep) same ∙ sleeping in cc
Step-IsAlert bound t u (cancels l granted v) i w p sleeping = inr (omega arith)
Step-IsAlert bound t u (sleeps l granted v h) i w p sleeping = inl (
    subst (λ (x : Waiter). must_wait l x.units x.cancelled ≡ true)
      (some_same (record v { asleep = true }) w p) h)
Step-IsAlert bound t u (leaves l granted v up h) i w p sleeping = cc
Step-IsAlert bound t u (gives_back l l' waiting before after n h) i w p sleeping =
    inr (release-signals l l' n h)
Step-IsAlert bound t u (sets l waiting granted limit h) i w p sleeping = inr (omega arith)
Step-IsAlert bound t u (wakes l waiting granted k h) i w p sleeping =
    let absurd : false ≡ true = sym (awake waiting w p) ∙ sleeping in cc

Steps-IsAlert : (bound : ℕ) (t u : Threads) → Steps bound t u → IsAlert t → IsAlert u
Steps-IsAlert bound t u (stop s) i = i
Steps-IsAlert bound t u (go s v w step rest) i =
    Steps-IsAlert bound v w rest (Step-IsAlert bound s v step i)

goes : (l : Limiter) (n : ℕ) (cancelled : Bool) → l.current ≡ 0 → must_wait l n cancelled ≡ false
unfolding must_wait
goes l n cancelled z = ground (arith, z)

up :
    (l : Limiter) (w : Waiter)
    → must_wait l w.units w.cancelled ≡ false
    → l.signals ≡ 0
    → (w.asleep ≡ true → (must_wait l w.units w.cancelled ≡ true) ⊎ (0 < l.signals))
    → (b : Bool) → w.asleep ≡ b
    → w.asleep ≡ false
up l w free quiet alert false p = p
up l w free quiet alert true p = elim (alert p) [
  | inl held ↦ let absurd : true ≡ false = sym held ∙ free in cc
  | inr some_left ↦ absurd (omega (arith, quiet, some_left))
]

-- From a state that keeps the account and has no thread that sleeps through its signal: when all units
-- have come back, and every signal has been delivered, the thread that waits is awake, and the next
-- thing that it does is to leave, with its units, however many, unless it is cancelled.
pub Steps-leaves :
    (bound : ℕ) (t u : Threads) (w : Waiter)
    → Steps bound t u
    → IsWithin bound t
    → IsAlert t
    → u.waiting ≡ some w
    → u.granted ≡ []
    → u.limiter.signals ≡ 0
    → (w.asleep ≡ false)
      × Step bound u (record {
        limiter = (finish u.limiter w.units w.cancelled).0;
        waiting = none;
        granted = grant (finish u.limiter w.units w.cancelled).1 w.units [];
      })
Steps-leaves bound t u w steps i alert at none_out quiet =
    let j = Steps-IsWithin bound t u steps i in
    let empty : u.limiter.current ≡ 0 = omega (arith, j.account, ap sum none_out) in
    let free = goes u.limiter w.units w.cancelled empty in
    let ready =
      up u.limiter w free quiet (Steps-IsAlert bound t u steps alert w at) w.asleep refl in
    let after : Threads = record {
      limiter = (finish u.limiter w.units w.cancelled).0;
      waiting = none;
      granted = grant (finish u.limiter w.units w.cancelled).1 w.units [];
    } in
    (
      ready,
      subst
          (λ x. Step bound (record { limiter = u.limiter; waiting = x; granted = u.granted }) after)
          (sym at)
          (subst
            (λ g. Step bound (record { limiter = u.limiter; waiting = some w; granted = g }) after)
            (sym none_out) (leaves u.limiter [] w ready free)),
    )
