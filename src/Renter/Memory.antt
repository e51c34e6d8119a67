-- ===== src/Renter/Memory.antt =====
-- modules/renter/memory.go: the memory manager. A blocked thread is its request in a queue; closing
-- its channel is listing it among the requests that were granted.
pub mod Release
pub mod Account
use hyperspace.Common.{
  ℕ, zero, suc, ◌+◌, List, [], ◌∷◌, ◌++◌, Bool, true, false, ltb, leb, ◌==◌, ◌&&◌, if◌then◌else◌,
  add64, sub64, Option, none, some,
}

pub record MemoryRequest : Type 0 where
  pub id : ℕ
  pub amount : ℕ

pub record MemoryManager : Type 0 where
  pub available : ℕ
  pub base : ℕ
  pub fifo : List MemoryRequest
  pub priority_fifo : List MemoryRequest
  pub underflow : ℕ

abbrev pub is_nil : List MemoryRequest → Bool
is_nil [] = true
is_nil (r ∷ rs) = false

-- The manager where the request is granted, or none.
unfoldable pub try : MemoryManager → ℕ → Option MemoryManager
try mm amount =
    if leb amount mm.available
    then some (record mm { available = sub64 mm.available amount })
    else if mm.available == mm.base
    then some (record mm { available = 0; underflow = sub64 amount mm.base })
    else none

-- A request that is not granted at once waits in its queue.
abbrev pub join : MemoryManager → MemoryRequest → Bool → MemoryManager
join mm r true = record mm { priority_fifo = mm.priority_fifo ++ (r ∷ []) }
join mm r false = record mm { fifo = mm.fifo ++ (r ∷ []) }

abbrev pub granted_or_joined :
    MemoryManager → MemoryRequest → Bool → Option MemoryManager → MemoryManager × Bool
granted_or_joined mm r priority none = (join mm r priority, false)
granted_or_joined mm r priority (some mm') = (mm', true)

-- The manager, and whether the request is granted without waiting.
unfoldable pub request : MemoryManager → MemoryRequest → Bool → MemoryManager × Bool
unfolding try
request mm r priority =
    granted_or_joined mm r priority (if is_nil mm.fifo then try mm r.amount else none)

-- What a loop over a queue leaves: the manager, the requests that still wait, and those granted.
pub record Released : Type 0 where
  pub manager : MemoryManager
  pub waiting : List MemoryRequest
  pub granted : List MemoryRequest

-- The loop over a queue, which ends at the first request that is not granted.
unfoldable pub release_queue : MemoryManager → List MemoryRequest → Released
release_queue mm [] = record { manager = mm; waiting = []; granted = [] }
release_queue mm (r ∷ rs) = elim (try mm r.amount) [
  | none ↦ record { manager = mm; waiting = r ∷ rs; granted = [] }
  | some mm' ↦
      let rest = release_queue mm' rs in
      record { manager = rest.manager; waiting = rest.waiting; granted = r ∷ rest.granted }
]

-- Memory comes back: the underflow is paid off first, and the available memory never exceeds the base.
unfoldable pub take_back : MemoryManager → ℕ → MemoryManager
take_back mm amount =
    let available = add64 mm.available (sub64 amount mm.underflow) in
    record mm { available = if ltb mm.base available then mm.base else available; underflow = 0 }

-- Both queues; the second one only where the first is empty by then.
unfoldable pub release_both : MemoryManager → MemoryManager × List MemoryRequest
unfolding release_queue
release_both mm =
    let first = release_queue mm mm.priority_fifo in
    let mm1 = record first.manager { priority_fifo = first.waiting } in
    let second = release_queue mm1 mm1.fifo in
    if is_nil first.waiting
    then (record second.manager { fifo = second.waiting }, first.granted ++ second.granted)
    else (mm1, first.granted)

-- Return: the manager, and the requests that are granted now.
unfoldable pub give_back : MemoryManager → ℕ → MemoryManager × List MemoryRequest
unfolding take_back release_both
give_back mm amount =
    if ltb 0 mm.underflow && leb amount mm.underflow
    then (record mm { underflow = sub64 mm.underflow amount }, [])
    else release_both (take_back mm amount)

unfoldable pub new_memory_manager : ℕ → MemoryManager
new_memory_manager base_memory = record {
  available = base_memory;
  base = base_memory;
  fifo = [];
  priority_fifo = [];
  underflow = 0;
}
