-- ===== src/Renter/Memory/Account.antt =====
-- The memory manager's accounts.
use mathlib.Core.List.{append-nil, append_assoc}
use hyperspace.Common.{
  ℕ, ◌+◌, ◌-◌, ◌≤◌, ◌<◌, ◌≡◌, inl, inr, refl, sym, ap, ◌∙◌, subst, List, [], ◌∷◌, ◌++◌, All, true,
  false, ltb, leb, u64_mod, Option-cases, Bool, Bool-cases, if◌then◌else◌, ◌&&◌, arith,
}
use hyperspace.Renter.Memory.{
  MemoryRequest, MemoryManager, is_nil, try, join, request, release_queue, take_back, release_both,
  give_back,
}
use hyperspace.Renter.Memory.Release.{
  IsBalanced, IsBlocked, amounts, try-IsBalanced, more_held, release_queue-IsRelease,
}

-- Memory that comes back is no longer held.
take_back-IsBalanced :
    (mm : MemoryManager) (held amount : ℕ)
    → IsBalanced mm held
    → amount ≤ held
    → amount < u64_mod
    → mm.underflow ≤ amount
    → (held' : ℕ) × (held' + amount ≡ held) × IsBalanced (take_back mm amount) held'
unfolding take_back
take_back-IsBalanced mm held amount b enough small paid = (
  held - amount,
  omega arith,
  record {
    positive = b.positive;
    machine = b.machine;
    total = ground (arith, b.total, b.machine, b.bounded, b.exclusive);
    bounded = omega arith;
    exclusive = inr refl;
  },
)

relabel :
    (mm : MemoryManager) (held : ℕ) (p q : List MemoryRequest)
    → IsBalanced mm held
    → IsBalanced (record mm { priority_fifo = p; fifo = q }) held
relabel mm held p q b = record {
  positive = b.positive;
  machine = b.machine;
  total = b.total;
  bounded = b.bounded;
  exclusive = b.exclusive;
}

nil_inv : (rs : List MemoryRequest) → is_nil rs ≡ true → rs ≡ []
nil_inv [] h = refl
nil_inv (r ∷ rs) h = cc

IsBlocked-append :
    (mm : MemoryManager) (rs more : List MemoryRequest)
    → is_nil rs ≡ false
    → IsBlocked mm rs
    → IsBlocked mm (rs ++ more)
IsBlocked-append mm rs more h (inl p) = let absurd : true ≡ false = sym (ap is_nil p) ∙ h in cc
IsBlocked-append mm rs more h (inr (r, rest, first, used, need)) =
    inr (r, rest ++ more, ap (λ xs. xs ++ more) first, used, need)

IsBlocked-none :
    (mm : MemoryManager) (rs : List MemoryRequest)
    → mm.available ≡ 0
    → 0 < mm.base
    → IsBlocked mm rs
IsBlocked-none mm [] h b = inl refl
IsBlocked-none mm (r ∷ rs) h b = inr (r, rs, refl, omega (arith, h), inr h)

amounts-append : (xs ys : List MemoryRequest) → amounts (xs ++ ys) ≡ amounts xs + amounts ys
amounts-append [] ys = omega arith
amounts-append (x ∷ xs) ys = omega (arith, amounts-append xs ys)

-- What giving memory back promises: the accounts are right with the memory granted anew; the waiting
-- requests, the priority ones first, are granted in order; and the first one that still waits cannot be granted.
pub record IsReturn (mm : MemoryManager) (held : ℕ) (out : MemoryManager × List MemoryRequest)
    : Type 0 where
  pub balanced : IsBalanced out.0 (held + amounts out.1)
  pub order : out.1 ++ (out.0.priority_fifo ++ out.0.fifo) ≡ mm.priority_fifo ++ mm.fifo
  pub blocked : IsBlocked out.0 (out.0.priority_fifo ++ out.0.fifo)

release_both-IsReturn :
    (mm : MemoryManager) (held : ℕ)
    → All (λ (r : MemoryRequest). r.amount < u64_mod) mm.priority_fifo
    → All (λ (r : MemoryRequest). r.amount < u64_mod) mm.fifo
    → IsBalanced mm held
    → IsReturn mm held (release_both mm)
unfolding release_both
release_both-IsReturn mm held small1 small2 b =
    let first = release_queue mm mm.priority_fifo in
    let f = release_queue-IsRelease mm held mm.priority_fifo small1 b in
    let mm1 : MemoryManager = record first.manager { priority_fifo = first.waiting } in
    let b1 =
      relabel first.manager (held + amounts first.granted) first.waiting first.manager.fifo
        f.balanced in
    let second = release_queue mm1 mm1.fifo in
    let s =
      release_queue-IsRelease mm1 (held + amounts first.granted) mm1.fifo
        (subst (All (λ (r : MemoryRequest). r.amount < u64_mod)) (sym f.same_fifo) small2) b1 in
    elim (Bool-cases (is_nil first.waiting)) [
      | inl p ↦
          let none_left : first.waiting ≡ [] = nil_inv first.waiting p in
          let all_granted : first.granted ≡ mm.priority_fifo =
            sym (append-nil first.granted)
            ∙ ap (λ xs. first.granted ++ xs) (sym none_left)
            ∙ f.order in
          let no_priority : second.manager.priority_fifo ≡ [] = s.same_priority ∙ none_left in
          rw (p, release_queue)
            (record {
              balanced = relabel second.manager _ second.manager.priority_fifo second.waiting (
                  more_held second.manager _ _
                    (omega (arith, amounts-append first.granted second.granted)) s.balanced);
              order =
                  append_assoc first.granted second.granted
                    (second.manager.priority_fifo ++ second.waiting)
                  ∙ ap (λ xs. first.granted ++ (second.granted ++ (xs ++ second.waiting)))
                      no_priority
                  ∙ ap (λ xs. first.granted ++ xs) (s.order ∙ f.same_fifo)
                  ∙ ap (λ xs. xs ++ mm.fifo) all_granted;
              blocked =
                  subst (IsBlocked (record second.manager { fifo = second.waiting }))
                    (sym (ap (λ xs. xs ++ second.waiting) no_priority)) s.blocked;
            })
      | inr p ↦
          rw (p, release_queue)
            (record {
              balanced = b1;
              order =
                  sym (append_assoc first.granted first.waiting first.manager.fifo)
                  ∙ ap (λ xs. xs ++ first.manager.fifo) f.order
                  ∙ ap (λ xs. mm.priority_fifo ++ xs) f.same_fifo;
              blocked = IsBlocked-append mm1 first.waiting first.manager.fifo p f.blocked;
            })
    ]

small_kept :
    (mm : MemoryManager) (amount : ℕ)
    → All (λ (r : MemoryRequest). r.amount < u64_mod) mm.priority_fifo
    → All (λ (r : MemoryRequest). r.amount < u64_mod) mm.fifo
    → All (λ (r : MemoryRequest). r.amount < u64_mod) (take_back mm amount).priority_fifo
      × All (λ (r : MemoryRequest). r.amount < u64_mod) (take_back mm amount).fifo
unfolding take_back
small_kept mm amount p q = (p, q)

same_queues :
    (mm : MemoryManager) (amount held : ℕ) {out : MemoryManager × List MemoryRequest}
    → IsReturn (take_back mm amount) held out
    → IsReturn mm held out
unfolding take_back
same_queues mm amount held r = record {
  balanced = r.balanced;
  order = r.order;
  blocked = r.blocked;
}

-- Where no more memory comes back than is held (and less than 2 ^ 64), Return keeps the accounts,
-- held memory included; it grants waiting requests in their order, the priority ones first; and
-- if any still wait after it, memory is in use, and the first of them asks for more than is available
-- or nothing is available.
pub give_back-IsReturn :
    (mm : MemoryManager) (held amount : ℕ)
    → All (λ (r : MemoryRequest). r.amount < u64_mod) mm.priority_fifo
    → All (λ (r : MemoryRequest). r.amount < u64_mod) mm.fifo
    → IsBalanced mm held
    → amount ≤ held
    → amount < u64_mod
    → IsReturn mm (held - amount) (give_back mm amount)
unfolding give_back
give_back-IsReturn mm held amount small1 small2 b enough small =
    elim (Bool-cases (ltb 0 mm.underflow && leb amount mm.underflow)) [
      | inl p ↦ rw p (record {
        balanced = record {
          positive = b.positive;
          machine = b.machine;
          total = ground (arith, b.total, b.machine, b.bounded, b.exclusive);
          bounded = ground (arith, b.bounded);
          exclusive = ground (arith, b.exclusive);
        };
        order = refl;
        blocked =
            IsBlocked-none mm (mm.priority_fifo ++ mm.fifo) (ground (arith, b.exclusive))
              b.positive;
      })
      | inr p ↦
          let (held', back, b') =
            take_back-IsBalanced mm held amount b enough small (ground (arith, p)) in
          rw p (
            same_queues mm amount (held - amount) (
              release_both-IsReturn (take_back mm amount) (held - amount)
                (small_kept mm amount small1 small2).0 (small_kept mm amount small1 small2).1
                (more_held _ held' _ (omega arith) b')))
    ]

relabel_join :
    (mm : MemoryManager) (held : ℕ) (r : MemoryRequest) (priority : Bool)
    → IsBalanced mm held
    → IsBalanced (join mm r priority) held
relabel_join mm held r true b = relabel mm held (mm.priority_fifo ++ (r ∷ [])) mm.fifo b
relabel_join mm held r false b = relabel mm held mm.priority_fifo (mm.fifo ++ (r ∷ [])) b

-- Request keeps the accounts: the memory of a request (of a uint64 amount) is held exactly if it is
-- granted at once.
pub request-IsBalanced :
    (mm : MemoryManager) (held : ℕ) (r : MemoryRequest) (priority : Bool)
    → r.amount < u64_mod
    → IsBalanced mm held
    → IsBalanced
        (request mm r priority).0
        (if (request mm r priority).1 then held + r.amount else held)
unfolding request
request-IsBalanced mm held r priority small b = elim (Bool-cases (is_nil mm.fifo)) [
  | inl p ↦ elim (Option-cases (try mm r.amount)) [
    | inl q ↦ rw p (rw q (relabel_join mm held r priority b))
    | inr (mm', q) ↦ rw p (rw q (try-IsBalanced mm mm' held r.amount small b q))
  ]
  | inr p ↦ rw p (relabel_join mm held r priority b)
]
