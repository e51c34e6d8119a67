-- ===== src/Sync/Limiter.antt =====
-- sync/limiter.go: a Limiter, and the threads around it. One thread at a time is past the mutex of
-- Request, where it waits for units; the others wait for the mutex. The units of a thread that has got
-- them are one item of a list until it returns them. Units are not negative, and their sums stay in an int.
pub mod Outlay
pub mod Wakes
pub mod Examples
use hyperspace.Common.{
  ℕ, suc, ◌+◌, ◌-◌, ◌≤◌, ◌≡◌, List, [], ◌∷◌, ◌++◌, Bool, true, false, not, ◌&&◌, Option, none, some,
  ltb, ◌==◌, if◌then◌else◌,
}

-- With the calls of l.cond.Signal that are under way: they are made without the lock, after a change.
pub record Limiter : Type 0 where
  pub limit : ℕ
  pub current : ℕ
  pub signals : ℕ

abbrev pub signal : Limiter → Limiter
signal l = record l { signals = l.signals + 1 }

-- The condition of the loop around Wait.
unfoldable pub must_wait : Limiter → ℕ → Bool → Bool
must_wait l n cancelled = ltb l.limit (l.current + n) && (not (l.current == 0) && not cancelled)

-- The end of Request, after the loop: the result says whether it was cancelled.
unfoldable pub finish : Limiter → ℕ → Bool → Limiter × Bool
finish l n true = (l, true)
finish l n false = (record l { current = l.current + n }, false)

-- To release more than was requested panics: `none`.
unfoldable pub release : Limiter → ℕ → Option Limiter
release l n = if ltb l.current n then none else some (signal (record l { current = l.current - n }))

abbrev pub set_limit : Limiter → ℕ → Limiter
set_limit l limit = signal (record l { limit = limit })

-- The thread past the mutex: it sleeps in Wait, or it has yet to look at the loop's condition.
pub record Waiter : Type 0 where
  pub units : ℕ
  pub cancelled : Bool
  pub asleep : Bool

abbrev pub woken : Option Waiter → Option Waiter
woken none = none
woken (some w) = some (record w { asleep = false })

pub record Threads : Type 0 where
  pub limiter : Limiter
  pub waiting : Option Waiter
  pub granted : List ℕ

abbrev pub grant : Bool → ℕ → List ℕ → List ℕ
grant true n granted = granted
grant false n granted = n ∷ granted

-- What the threads do, as long as no limit is above the bound. A request that is cancelled before it
-- has the mutex changes nothing. A signal wakes the thread that sleeps, if one does.
pub data Step (bound : ℕ) : Threads → Threads → Type 0 where
  enters :
      (l : Limiter) (granted : List ℕ) (n : ℕ)
      → Step bound
          (record { limiter = l; waiting = none; granted = granted })
          (record {
            limiter = l;
            waiting = some (record { units = n; cancelled = false; asleep = false });
            granted = granted;
          })
  cancels :
      (l : Limiter) (granted : List ℕ) (w : Waiter)
      → Step bound
          (record { limiter = l; waiting = some w; granted = granted })
          (record {
            limiter = signal l;
            waiting = some (record w { cancelled = true });
            granted = granted;
          })
  sleeps :
      (l : Limiter) (granted : List ℕ) (w : Waiter)
      → must_wait l w.units w.cancelled ≡ true
      → Step bound
          (record { limiter = l; waiting = some w; granted = granted })
          (record { limiter = l; waiting = some (record w { asleep = true }); granted = granted })
  leaves :
      (l : Limiter) (granted : List ℕ) (w : Waiter)
      → w.asleep ≡ false
      → must_wait l w.units w.cancelled ≡ false
      → Step bound
          (record { limiter = l; waiting = some w; granted = granted })
          (record {
            limiter = (finish l w.units w.cancelled).0;
            waiting = none;
            granted = grant (finish l w.units w.cancelled).1 w.units granted;
          })
  gives_back :
      (l l' : Limiter) (waiting : Option Waiter) (before after : List ℕ) (n : ℕ)
      → release l n ≡ some l'
      → Step bound
          (record { limiter = l; waiting = waiting; granted = before ++ (n ∷ after) })
          (record { limiter = l'; waiting = waiting; granted = before ++ after })
  sets :
      (l : Limiter) (waiting : Option Waiter) (granted : List ℕ) (limit : ℕ)
      → limit ≤ bound
      → Step bound
          (record { limiter = l; waiting = waiting; granted = granted })
          (record { limiter = set_limit l limit; waiting = waiting; granted = granted })
  wakes :
      (l : Limiter) (waiting : Option Waiter) (granted : List ℕ) (k : ℕ)
      → l.signals ≡ suc k
      → Step bound
          (record { limiter = l; waiting = waiting; granted = granted })
          (record {
            limiter = record l { signals = k };
            waiting = woken waiting;
            granted = granted;
          })

pub data Steps (bound : ℕ) : Threads → Threads → Type 0 where
  stop : (t : Threads) → Steps bound t t
  go : (t u v : Threads) → Step bound t u → Steps bound u v → Steps bound t v
