-- ===== src/Sync/Limiter/Examples.antt =====
-- A request above the limit, granted while no units are out, and returned while another one sleeps.
use hyperspace.Common.{ℕ, ◌≡◌, refl, [], ◌∷◌, true, false, none, some, arith, inl}
use hyperspace.Sync.Limiter.{
  Limiter, Threads, Waiter, must_wait, finish, release, grant, enters, leaves, gives_back, wakes,
  Step, Steps, stop, go,
}
use hyperspace.Sync.Limiter.Outlay.{IsWithin, Steps-IsWithin}
use hyperspace.Sync.Limiter.Wakes.{IsAlert, Steps-leaves}

abbrev five : ℕ → ℕ → Limiter
five n signals = record { limit = 5; current = n; signals = signals }

abbrev asks : ℕ → Waiter
asks n = record { units = n; cancelled = false; asleep = false }

abbrev idle : Threads
idle = record { limiter = five 0 0; waiting = none; granted = [] }

abbrev asking : Threads
asking = record { limiter = five 0 0; waiting = some (asks 8); granted = [] }

abbrev busy : Threads
busy = record { limiter = five 8 0; waiting = none; granted = 8 ∷ [] }

idle-IsWithin : IsWithin 5 idle
idle-IsWithin = record { account = refl; limited = omega arith; few = inl (omega arith) }

large-request : Steps 5 idle busy
unfolding must_wait finish
large-request =
    go idle asking busy (enters (five 0 0) [] 8)
      (go asking busy busy (leaves (five 0 0) [] (asks 8) refl refl) (stop busy))

Steps-IsWithin_example : IsWithin 5 busy
Steps-IsWithin_example = Steps-IsWithin 5 idle busy large-request idle-IsWithin

-- The next request sleeps until the units come back.
abbrev asleep : Threads
asleep = record {
  limiter = five 8 0;
  waiting = some (record { units = 6; cancelled = false; asleep = true });
  granted = 8 ∷ [];
}

abbrev signalled : Threads
signalled = record {
  limiter = five 0 1;
  waiting = some (record { units = 6; cancelled = false; asleep = true });
  granted = [];
}

abbrev awake : Threads
awake = record { limiter = five 0 0; waiting = some (asks 6); granted = [] }

returned : Steps 5 asleep awake
unfolding release
returned =
    go asleep signalled awake
      (gives_back (five 8 0) (five 0 1)
        (some (record { units = 6; cancelled = false; asleep = true })) [] [] 8 refl)
      (go signalled awake awake
        (wakes (five 0 1) (some (record { units = 6; cancelled = false; asleep = true })) [] 0 refl)
        (stop awake))

asleep-IsWithin : IsWithin 5 asleep
asleep-IsWithin =
    let i = Steps-IsWithin 5 idle busy large-request idle-IsWithin in
    record { account = refl; limited = omega arith; few = i.few }

asleep-IsAlert : IsAlert asleep
unfolding must_wait
asleep-IsAlert w p sleeping = inl (ground (arith, p))

Steps-leaves_example :
    (false ≡ false)
    × Step 5 awake (record {
      limiter = (finish (five 0 0) 6 false).0;
      waiting = none;
      granted = grant (finish (five 0 0) 6 false).1 6 [];
    })
Steps-leaves_example =
    Steps-leaves 5 asleep awake (asks 6) returned asleep-IsWithin asleep-IsAlert refl refl refl
