-- ===== src/Renter/HostTree/Balance.antt =====
-- The shape of a host tree (recursiveInsert in modules/renter/hostdb/hosttree/hosttree.go).
use hyperspace.Common.{
  ℕ, suc, ◌+◌, ◌*◌, ◌^◌, ◌≤◌, ◌≡◌, refl, List, [], ◌∷◌, Bool, true, false, ◌&&◌, Option, some,
  arith, leb, leb→le, length, if_rule,
}
use hyperspace.Types.Currency.{add}
use hyperspace.Renter.HostTree.{
  HostEntry, Node, nil, node, Turn, left, right, is_nil, count, recursive_insert, take_off,
}

-- The count of a node is the number of nodes below it and itself, the left side has as many nodes as the
-- right one or one more, and so on below.
abbrev pub IsBalanced : Node → Type 0
IsBalanced nil = Unit {0}
IsBalanced (node l r c taken w e) =
    IsBalanced l
    × IsBalanced r
    × (c ≡ count l + count r + 1)
    × (count r ≤ count l)
    × (count l ≤ count r + 1)

nil-count : (t : Node) → IsBalanced t → is_nil t ≡ true → count t ≡ 0
nil-count nil i h = refl
nil-count (node l r c taken w e) i h = ground arith

count-node : (t : Node) → IsBalanced t → is_nil t ≡ false → 1 ≤ count t
count-node nil i h = ground arith
count-node (node l r c taken w e) i h = omega (arith, i.2)

-- What an insertion promises: the tree stays balanced, the number of nodes is right, and the place is at
-- a depth of at most the logarithm of it.
pub record IsFlat (t t' : Node) (added : ℕ) (p : List Turn) : Type 0 where
  pub balanced : IsBalanced t'
  pub grown : count t' ≡ count t + added
  pub single : added ≤ 1
  pub shallow : 2 ^ length p ≤ count t'

abbrev Flat : Node → Node × ℕ × List Turn → Type 0
Flat t done = IsFlat t done.0 done.1 done.2

double : (k : ℕ) → 2 ^ suc k ≡ 2 * 2 ^ k
double k = omega arith

module _ (r : Node) (c w w' : ℕ) (taken : Bool) (old : Option HostEntry) where
  go_left :
      (l l' : Node) (added : ℕ) (p : List Turn)
      → IsBalanced (node l r c taken w old)
      → count l ≤ count r
      → IsFlat l l' added p
      → IsFlat (node l r c taken w old) (node l' r (c + added) taken w' old) added (left ∷ p)
  go_left l l' added p i h s = record {
    balanced = (
      s.balanced,
      i.1,
      omega (arith, i.2, s.grown),
      omega (arith, i.3, s.grown),
      omega (arith, h, s.grown, s.single),
    );
    grown = refl;
    single = s.single;
    shallow = omega (arith, double (length p), s.shallow, i.2, h, s.grown, s.single);
  }

module _ (l : Node) (c w w' : ℕ) (taken : Bool) (old : Option HostEntry) where
  go_right :
      (r r' : Node) (added : ℕ) (p : List Turn)
      → IsBalanced (node l r c taken w old)
      → suc (count r) ≤ count l
      → IsFlat r r' added p
      → IsFlat (node l r c taken w old) (node l r' (c + added) taken w' old) added (right ∷ p)
  go_right r r' added p i h s = record {
    balanced = (
      i.0,
      s.balanced,
      omega (arith, i.2, s.grown),
      omega (arith, h, s.grown, s.single),
      omega (arith, i.4, s.grown),
    );
    grown = refl;
    single = s.single;
    shallow = omega (arith, double (length p), s.shallow, i.2, h, s.grown, s.single);
  }

here :
    (l r : Node) (c w w' : ℕ) (old : Option HostEntry) (e : HostEntry)
    → IsBalanced (node l r c false w old)
    → IsFlat (node l r c false w old) (node l r c true w' (some e)) 0 []
here l r c w w' old e i = record {
  balanced = i;
  grown = omega arith;
  single = omega arith;
  shallow = omega (arith, i.2);
}

-- In a balanced tree recursiveInsert adds a node at most, keeps the tree balanced and its counts right,
-- and puts the entry no deeper than the logarithm of the number of nodes.
pub recursive_insert-IsFlat :
    (root : Bool) (t : Node) (e : HostEntry)
    → IsBalanced t
    → IsFlat t
        (recursive_insert root t e).0
        (recursive_insert root t e).1
        (recursive_insert root t e).2
unfolding recursive_insert
recursive_insert-IsFlat root nil e i = record {
  balanced = (tt, tt, omega arith, omega arith, omega arith);
  grown = omega arith;
  single = omega arith;
  shallow = omega arith;
}
recursive_insert-IsFlat root (node l r c false w old) e i =
    if_rule (Flat (node l r c false w old)) (root && (is_nil l && (is_nil r && true)))
      (λ _. here l r c w e.weight old e i) (λ _. here l r c w (add w e.weight) old e i)
recursive_insert-IsFlat root (node l r c true w old) e i =
    let on_left = λ (h : count l ≤ count r).
      go_left r c w (add w e.weight) true old l (recursive_insert false l e).0
        (recursive_insert false l e).1 (recursive_insert false l e).2 i h
        (recursive_insert-IsFlat false l e i.0) in
    let on_right = λ (h : suc (count r) ≤ count l).
      go_right l c w (add w e.weight) true old r (recursive_insert false r e).0
        (recursive_insert false r e).1 (recursive_insert false r e).2 i h
        (recursive_insert-IsFlat false r e i.1) in
    let P = Flat (node l r c true w old) in
    if_rule P (root && (is_nil l && (is_nil r && false))) (λ h. ground arith)
      (λ _.
        if_rule P (is_nil l) (λ h. on_left (omega (arith, nil-count l i.0 h)))
          (λ some_left.
            if_rule P (is_nil r)
              (λ h. on_right (omega (arith, nil-count r i.1 h, count-node l i.0 some_left)))
              (λ _.
                if_rule P (leb (count l) (count r)) (λ h. on_left (leb→le (count l) (count r) h))
                  (λ h. on_right (ground arith)))))

-- A removal keeps all nodes.
pub take_off-IsBalanced :
    (t : Node) (p : List Turn) (x : ℕ)
    → IsBalanced t
    → IsBalanced (take_off t p x) × (count (take_off t p x) ≡ count t)
unfolding take_off
take_off-IsBalanced nil p x i = (tt, refl)
take_off-IsBalanced (node l r c taken w e) [] x i = (i, refl)
take_off-IsBalanced (node l r c taken w e) (left ∷ p) x i =
    let (s, same) = take_off-IsBalanced l p x i.0 in
    ((s, i.1, omega (arith, i.2, same), omega (arith, i.3, same), omega (arith, i.4, same)), refl)
take_off-IsBalanced (node l r c taken w e) (right ∷ p) x i =
    let (s, same) = take_off-IsBalanced r p x i.1 in
    ((i.0, s, omega (arith, i.2, same), omega (arith, i.3, same), omega (arith, i.4, same)), refl)
