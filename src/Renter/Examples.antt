-- ===== src/Renter/Examples.antt =====
-- Runs of the renter's functions on concrete inputs.
use hyperspace.Common.{◌+◌, ◌-◌, refl, inl, inr, [], ◌∷◌, true, arith, if◌then◌else◌}
use hyperspace.Renter.Memory.{MemoryRequest, MemoryManager, request, give_back, new_memory_manager}
use hyperspace.Renter.Memory.Release.{IsBalanced}
use hyperspace.Renter.Memory.Account.{IsReturn, give_back-IsReturn, request-IsBalanced}

abbrev small_request : MemoryRequest
small_request = record { id = 1; amount = 30 }

abbrev large_request : MemoryRequest
large_request = record { id = 2; amount = 120 }

-- A request of 160 of a base of 100 runs, and two threads wait.
abbrev busy : MemoryManager
busy = record {
  available = 0;
  base = 100;
  fifo = small_request ∷ [];
  priority_fifo = large_request ∷ [];
  underflow = 60;
}

busy-IsBalanced : IsBalanced busy 160
busy-IsBalanced = record {
  positive = omega arith;
  machine = omega arith;
  total = refl;
  bounded = omega arith;
  exclusive = inl refl;
}

give_back-IsReturn_example : IsReturn busy (160 - 160) (give_back busy 160)
give_back-IsReturn_example =
    give_back-IsReturn busy 160 160 (omega arith, tt) (omega arith, tt) busy-IsBalanced
      (omega arith) (omega arith)

request-IsBalanced_example :
    IsBalanced
      (request busy small_request true).0
      (if (request busy small_request true).1 then 160 + 30 else 160)
request-IsBalanced_example =
    request-IsBalanced busy 160 small_request true (omega arith) busy-IsBalanced

new-IsBalanced : IsBalanced (new_memory_manager 100) 0
unfolding new_memory_manager
new-IsBalanced = record {
  positive = omega arith;
  machine = omega arith;
  total = refl;
  bounded = omega arith;
  exclusive = inr refl;
}
