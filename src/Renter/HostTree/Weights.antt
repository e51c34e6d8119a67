-- ===== src/Renter/HostTree/Weights.antt =====
-- The weights of a host tree, and what an insertion and a removal do to the nodes
-- (modules/renter/hostdb/hosttree/hosttree.go).
use hyperspace.Common.{
  ℕ, ◌+◌, ◌≤◌, ◌≡◌, subst, ap, if_rule, ◌⊎◌, inl, inr, refl, List, [], ◌∷◌, Bool, true, false,
  Option, none, some, arith, is_some, ◌&&◌, leb,
}
use hyperspace.Renter.HostTree.{
  HostEntry, Node, nil, node, Turn, left, right, is_nil, count, weight, create_node,
  recursive_insert, entry_at, take_off,
}

abbrev pub held : Bool → Option HostEntry → Option HostEntry
held false e = none
held true e = e

-- The host at a node: its entry, if the node is taken.
abbrev pub host_at : Node → List Turn → Option HostEntry
host_at nil p = none
host_at (node l r c taken w e) [] = held taken e
host_at (node l r c taken w e) (left ∷ p) = host_at l p
host_at (node l r c taken w e) (right ∷ p) = host_at r p

abbrev pub own : Option HostEntry → ℕ
own none = 0
own (some e) = e.weight

-- The weight of a node is that of its host and of its children; a node that is taken has an entry.
abbrev pub IsWeighed : Node → Type 0
IsWeighed nil = Unit {0}
IsWeighed (node l r c taken w e) =
    IsWeighed l
    × IsWeighed r
    × (w ≡ weight l + weight r + own (held taken e))
    × (taken ≡ is_some (held taken e))

pub host_at-entry :
    (t : Node) (p : List Turn) (e : HostEntry) → host_at t p ≡ some e → entry_at t p ≡ some e
unfolding entry_at
host_at-entry nil p e h = ground arith
host_at-entry (node l r c true w old) [] e h = h
host_at-entry (node l r c false w old) [] e h = ground arith
host_at-entry (node l r c taken w old) (left ∷ p) e h = host_at-entry l p e h
host_at-entry (node l r c taken w old) (right ∷ p) e h = host_at-entry r p e h

pub weight-host_at :
    (t : Node) (p : List Turn) (e : HostEntry)
    → IsWeighed t
    → host_at t p ≡ some e
    → e.weight ≤ weight t
weight-host_at nil p e i h = ground arith
weight-host_at (node l r c true w (some x)) [] e i h = ground (arith, i.2)
weight-host_at (node l r c true w none) [] e i h = ground arith
weight-host_at (node l r c false w old) [] e i h = ground arith
weight-host_at (node l r c taken w old) (left ∷ p) e i h =
    omega (arith, i.2, weight-host_at l p e i.0 h)
weight-host_at (node l r c taken w old) (right ∷ p) e i h =
    omega (arith, i.2, weight-host_at r p e i.1 h)

-- What an insertion promises: the weight of the entry is added, and the entry stands in a node that was
-- not taken, or was not there; the other nodes keep theirs.
pub record IsInsert (t : Node) (e : HostEntry) (t' : Node) (p : List Turn) : Type 0 where
  pub sound : IsWeighed t'
  pub total : weight t' ≡ weight t + e.weight
  pub free : host_at t p ≡ none
  pub there : host_at t' p ≡ some e
  pub others : (q : List Turn) → (q ≡ p) ⊎ (host_at t' q ≡ host_at t q)

module _ (e : HostEntry) where
  at_node :
      (l r : Node) (c w : ℕ) (old : Option HostEntry)
      → IsWeighed (node l r c false w old)
      → IsInsert (node l r c false w old) e (node l r c true (w + e.weight) (some e)) []
  at_node l r c w old i = record {
    sound = (i.0, i.1, omega (arith, i.2), refl);
    total = refl;
    free = refl;
    there = refl;
    others = other;
  }
    where
      other :
          (q : List Turn)
          → (q ≡ [])
            ⊎ (host_at (node l r c true (w + e.weight) (some e)) q
                ≡ host_at (node l r c false w old) q)
      other [] = inl refl
      other (left ∷ q) = inr refl
      other (right ∷ q) = inr refl

  first :
      (l r : Node) (c w : ℕ) (old : Option HostEntry)
      → (is_nil l ≡ true) × (is_nil r ≡ true)
      → IsWeighed (node l r c false w old)
      → IsInsert (node l r c false w old) e (node l r c true e.weight (some e)) []
  first nil nil c w old h i =
      subst (λ x. IsInsert (node nil nil c false w old) e (node nil nil c true x (some e)) [])
        {x = w + e.weight} {y = e.weight} (omega (arith, i.2)) (at_node nil nil c w old i)
  first (node a b m t x o) r c w old h i = ground arith
  first nil (node a b m t x o) c w old h i = ground arith

  at_left :
      (l l' r : Node) (c c' w : ℕ) (taken : Bool) (old : Option HostEntry) (p : List Turn)
      → IsWeighed (node l r c taken w old)
      → IsInsert l e l' p
      → IsInsert (node l r c taken w old) e (node l' r c' taken (w + e.weight) old) (left ∷ p)
  at_left l l' r c c' w taken old p i s = record {
    sound = (s.sound, i.1, omega (arith, i.2, s.total), i.3);
    total = refl;
    free = s.free;
    there = s.there;
    others = other;
  }
    where
      other :
          (q : List Turn)
          → (q ≡ (left ∷ p))
            ⊎ (host_at (node l' r c' taken (w + e.weight) old) q
                ≡ host_at (node l r c taken w old) q)
      other [] = inr refl
      other (left ∷ q) = elim (s.others q) [ inl h ↦ inl (cc) | inr h ↦ inr h ]
      other (right ∷ q) = inr refl

  at_right :
      (l r r' : Node) (c c' w : ℕ) (taken : Bool) (old : Option HostEntry) (p : List Turn)
      → IsWeighed (node l r c taken w old)
      → IsInsert r e r' p
      → IsInsert (node l r c taken w old) e (node l r' c' taken (w + e.weight) old) (right ∷ p)
  at_right l r r' c c' w taken old p i s = record {
    sound = (i.0, s.sound, omega (arith, i.2, s.total), i.3);
    total = refl;
    free = s.free;
    there = s.there;
    others = other;
  }
    where
      other :
          (q : List Turn)
          → (q ≡ (right ∷ p))
            ⊎ (host_at (node l r' c' taken (w + e.weight) old) q
                ≡ host_at (node l r c taken w old) q)
      other [] = inr refl
      other (left ∷ q) = inr refl
      other (right ∷ q) = elim (s.others q) [ inl h ↦ inl (cc) | inr h ↦ inr h ]

  abbrev Inserts : Node → Node × ℕ × List Turn → Type 0
  Inserts t done = IsInsert t e done.0 done.2

  at_nil : IsInsert nil e (create_node e) []
  at_nil = record {
    sound = (tt, tt, omega arith, refl);
    total = omega arith;
    free = refl;
    there = refl;
    others = other;
  }
    where
      other : (q : List Turn) → (q ≡ []) ⊎ (host_at (create_node e) q ≡ none)
      other [] = inl refl
      other (left ∷ q) = inr refl
      other (right ∷ q) = inr refl

  pub recursive_insert-IsInsert :
      (root : Bool) (t : Node)
      → IsWeighed t
      → IsInsert t e (recursive_insert root t e).0 (recursive_insert root t e).2
  unfolding recursive_insert
  recursive_insert-IsInsert root nil i = at_nil
  recursive_insert-IsInsert root (node l r c false w old) i =
      if_rule (Inserts (node l r c false w old)) (root && (is_nil l && (is_nil r && true)))
        (λ h. first l r c w old (ground arith) i) (λ h. at_node l r c w old i)
  recursive_insert-IsInsert root (node l r c true w old) i =
      let on_left =
        at_left l (recursive_insert false l e).0 r c (c + (recursive_insert false l e).1) w true old
          (recursive_insert false l e).2 i (recursive_insert-IsInsert false l i.0) in
      let on_right =
        at_right l r (recursive_insert false r e).0 c (c + (recursive_insert false r e).1) w true
          old (recursive_insert false r e).2 i (recursive_insert-IsInsert false r i.1) in
      let P = Inserts (node l r c true w old) in
      if_rule P (root && (is_nil l && (is_nil r && false))) (λ h. ground arith)
        (λ _.
          if_rule P (is_nil l) (λ _. on_left)
            (λ _.
              if_rule P (is_nil r) (λ _. on_right)
                (λ _. if_rule P (leb (count l) (count r)) (λ _. on_left) (λ _. on_right))))

-- What a removal promises: the host at the node goes with its weight, and the others stay.
pub record IsRemoval (t : Node) (e : HostEntry) (t' : Node) (p : List Turn) : Type 0 where
  pub sound : IsWeighed t'
  pub total : weight t' + e.weight ≡ weight t
  pub gone : host_at t' p ≡ none
  pub others : (q : List Turn) → (q ≡ p) ⊎ (host_at t' q ≡ host_at t q)

pub take_off-IsRemoval :
    (t : Node) (p : List Turn) (e : HostEntry)
    → IsWeighed t
    → host_at t p ≡ some e
    → IsRemoval t e (take_off t p e.weight) p
unfolding take_off
take_off-IsRemoval nil p e i h = ground arith
take_off-IsRemoval (node l r c false w old) [] e i h = ground arith
take_off-IsRemoval (node l r c true w old) [] e i h = record {
  sound = (i.0, i.1, ground (arith, ap own h, i.2), refl);
  total = ground (arith, ap own h, i.2);
  gone = refl;
  others = other;
}
  where
    other :
        (q : List Turn)
        → (q ≡ [])
          ⊎ (host_at (take_off (node l r c true w old) [] e.weight) q
              ≡ host_at (node l r c true w old) q)
    other [] = inl refl
    other (left ∷ q) = inr refl
    other (right ∷ q) = inr refl
take_off-IsRemoval (node l r c taken w old) (left ∷ p) e i h =
    let s = take_off-IsRemoval l p e i.0 h in
    let enough = weight-host_at l p e i.0 h in
    record {
      sound = (s.sound, i.1, ground (arith, i.2, s.total, enough), i.3);
      total = ground (arith, i.2, enough);
      gone = s.gone;
      others = other s.others;
    }
  where
    other :
        ((q : List Turn) → (q ≡ p) ⊎ (host_at (take_off l p e.weight) q ≡ host_at l q))
        → (q : List Turn)
        → (q ≡ (left ∷ p))
          ⊎ (host_at (take_off (node l r c taken w old) (left ∷ p) e.weight) q
              ≡ host_at (node l r c taken w old) q)
    other rest [] = inr refl
    other rest (left ∷ q) = elim (rest q) [ inl x ↦ inl (cc) | inr x ↦ inr x ]
    other rest (right ∷ q) = inr refl
take_off-IsRemoval (node l r c taken w old) (right ∷ p) e i h =
    let s = take_off-IsRemoval r p e i.1 h in
    let enough = weight-host_at r p e i.1 h in
    record {
      sound = (i.0, s.sound, ground (arith, i.2, s.total, enough), i.3);
      total = ground (arith, i.2, enough);
      gone = s.gone;
      others = other s.others;
    }
  where
    other :
        ((q : List Turn) → (q ≡ p) ⊎ (host_at (take_off r p e.weight) q ≡ host_at r q))
        → (q : List Turn)
        → (q ≡ (right ∷ p))
          ⊎ (host_at (take_off (node l r c taken w old) (right ∷ p) e.weight) q
              ≡ host_at (node l r c taken w old) q)
    other rest [] = inr refl
    other rest (left ∷ q) = inr refl
    other rest (right ∷ q) = elim (rest q) [ inl x ↦ inl (cc) | inr x ↦ inr x ]
