-- ===== src/Renter/Memory/Release.antt =====
-- The memory manager's accounts while it grants the requests of a queue (modules/renter/memory.go).
use hyperspace.Common.{
  ℕ, ◌+◌, ◌<◌, ◌≡◌, ◌⊎◌, inl, inr, refl, ap, ◌∙◌, subst, List, [], ◌∷◌, ◌++◌, map, sum, All,
  u64_mod, none, some, Option-cases, arith,
}
use hyperspace.Renter.Memory.{MemoryRequest, MemoryManager, try, Released, release_queue}

-- `held` is the memory that was granted and has not come back. What is available and what is held
-- make up the base and the underflow, and memory is available only where there is no underflow.
pub record IsBalanced (mm : MemoryManager) (held : ℕ) : Type 0 where
  pub positive : 0 < mm.base
  pub machine : mm.base < u64_mod
  pub total : mm.available + held ≡ mm.base + mm.underflow
  pub bounded : mm.underflow < u64_mod
  pub exclusive : (mm.available ≡ 0) ⊎ (mm.underflow ≡ 0)

abbrev pub amounts : List MemoryRequest → ℕ
amounts rs = sum (map (λ (r : MemoryRequest). r.amount) rs)

pub try-IsBalanced :
    (mm mm' : MemoryManager) (held amount : ℕ)
    → amount < u64_mod
    → IsBalanced mm held
    → try mm amount ≡ some mm'
    → IsBalanced mm' (held + amount)
unfolding try
try-IsBalanced mm mm' held amount small b h = record {
  positive = ground (arith, b.positive);
  machine = ground (arith, b.machine);
  total = ground (arith, b.total, b.positive, b.machine, b.exclusive);
  bounded = ground (arith, b.bounded, b.positive);
  exclusive = ground (arith, b.exclusive, b.total, b.positive);
}

pub try-none :
    (mm : MemoryManager) (held amount : ℕ)
    → IsBalanced mm held
    → try mm amount ≡ none
    → (mm.available < mm.base) × (mm.available < amount)
unfolding try
try-none mm held amount b h =
    (ground (arith, b.total, b.positive, b.exclusive), ground (arith, b.total, b.exclusive))

pub try-queues :
    (mm mm' : MemoryManager) (amount : ℕ)
    → try mm amount ≡ some mm'
    → (mm'.fifo ≡ mm.fifo) × (mm'.priority_fifo ≡ mm.priority_fifo)
unfolding try
try-queues mm mm' amount h = (ground arith, ground arith)

-- The first of the requests that wait asks for more than is available, or nothing is available; and
-- memory is in use.
abbrev pub IsBlocked : MemoryManager → List MemoryRequest → Type 0
IsBlocked mm rs =
    (rs ≡ [])
    ⊎ ((r : MemoryRequest) × (rest : List MemoryRequest) × (rs ≡ r ∷ rest)
        × (mm.available < mm.base)
        × ((mm.available < r.amount) ⊎ (mm.available ≡ 0)))

-- What the loop over a queue promises: the accounts are right, the requests are granted in their
-- order, and the first one that waits cannot be granted.
pub record IsRelease (mm : MemoryManager) (held : ℕ) (rs : List MemoryRequest) (rel : Released)
    : Type 0 where
  pub balanced : IsBalanced rel.manager (held + amounts rel.granted)
  pub order : rel.granted ++ rel.waiting ≡ rs
  pub blocked : IsBlocked rel.manager rel.waiting
  pub same_fifo : rel.manager.fifo ≡ mm.fifo
  pub same_priority : rel.manager.priority_fifo ≡ mm.priority_fifo

pub more_held : (mm : MemoryManager) (a b : ℕ) → a ≡ b → IsBalanced mm a → IsBalanced mm b
more_held mm a b p h = subst (IsBalanced mm) p h

pub release_queue-IsRelease :
    (mm : MemoryManager) (held : ℕ) (rs : List MemoryRequest)
    → All (λ (r : MemoryRequest). r.amount < u64_mod) rs
    → IsBalanced mm held
    → IsRelease mm held rs (release_queue mm rs)
unfolding release_queue
release_queue-IsRelease mm held [] small b = record {
  balanced = more_held mm held (held + 0) (omega arith) b;
  order = refl;
  blocked = inl refl;
  same_fifo = refl;
  same_priority = refl;
}
release_queue-IsRelease mm held (r ∷ rs) small b = elim (Option-cases (try mm r.amount)) [
  | inl p ↦
      rw (p, release_queue)
        (record {
          balanced = more_held mm held (held + 0) (omega arith) b;
          order = refl;
          blocked =
              inr (
                let (used, large) = try-none mm held r.amount b p in
                (r, rs, refl, used, inl large));
          same_fifo = refl;
          same_priority = refl;
        })
  | inr (mm', p) ↦
      let b1 = try-IsBalanced mm mm' held r.amount small.0 b p in
      let ih = release_queue-IsRelease mm' (held + r.amount) rs small.1 b1 in
      let kept = try-queues mm mm' r.amount p in
      rw (p, release_queue)
        (record {
          balanced = more_held _ _ _ (omega arith) ih.balanced;
          order = ap (λ xs. r ∷ xs) ih.order;
          blocked = ih.blocked;
          same_fifo = ih.same_fifo ∙ kept.0;
          same_priority = ih.same_priority ∙ kept.1;
        })
]
