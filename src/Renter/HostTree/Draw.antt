-- ===== src/Renter/HostTree/Draw.antt =====
-- Which node is found at a weight (nodeAtWeight in modules/renter/hostdb/hosttree/hosttree.go).
use hyperspace.Common.{
  ℕ, ◌+◌, ◌-◌, ◌≤◌, ◌<◌, ◌≡◌, refl, sym, subst, ap, ◌∙◌, List, [], ◌∷◌, Bool, true, false, Option,
  none, some, arith, if◌then◌else◌, ltb, lt→ltb,
}
use hyperspace.Renter.HostTree.{
  HostEntry, Node, nil, node, Turn, left, right, weight, below, node_at_weight,
}
use native.Mathlib.Decide.{dec_lt}
use hyperspace.Types.Currency.{sub}
use hyperspace.Renter.HostTree.Weights.{host_at, own, IsWeighed}

-- The weights that are toured before the node: those of the left side, of the right side, of the node.
abbrev pub start : Node → List Turn → ℕ
start nil p = 0
start (node l r c taken w e) [] = weight l + weight r
start (node l r c taken w e) (left ∷ p) = start l p
start (node l r c taken w e) (right ∷ p) = weight l + start r p

pub start-weight :
    (t : Node) (p : List Turn) (e : HostEntry)
    → IsWeighed t
    → host_at t p ≡ some e
    → start t p + e.weight ≤ weight t
start-weight nil p e i h = ground arith
start-weight (node l r c false w old) [] e i h = ground arith
start-weight (node l r c true w old) [] e i h = ground (arith, i.2, ap own h)
start-weight (node l r c taken w old) (left ∷ p) e i h =
    omega (arith, i.2, start-weight l p e i.0 h)
start-weight (node l r c taken w old) (right ∷ p) e i h =
    omega (arith, i.2, start-weight r p e i.1 h)

not_ltb : (a b : ℕ) → b ≤ a → ltb a b ≡ false
not_ltb a b h = ground arith

module _ (c total : ℕ) (taken : Bool) (e : Option HostEntry) (w : ℕ) where
  in_left :
      (l r : Node)
      → w ≤ total
      → w < weight l
      → node_at_weight (node l r c taken total e) w ≡ below left (node_at_weight l w)
  unfolding node_at_weight
  in_left nil r h k = ground arith
  in_left (node a b m t x o) r h k = ground arith

  in_right :
      (l r : Node)
      → w ≤ total
      → weight l ≤ w
      → w < weight l + weight r
      → node_at_weight (node l r c taken total e) w ≡ below right (node_at_weight r (w - weight l))
  unfolding node_at_weight sub
  in_right l nil h k m = ground arith
  in_right nil (node a b m t x o) h k n = ground arith
  in_right (node a b m t x o) (node a' b' m' t' x' o') h k n =
      rw (not_ltb total w h) (rw (not_ltb w x k) (rw (lt→ltb (w - x) x' (omega arith)) refl))

  in_self :
      (l r : Node)
      → w ≤ total
      → weight l + weight r ≤ w
      → node_at_weight (node l r c taken total e) w ≡ (if taken then some [] else none)
  unfolding node_at_weight
  in_self nil nil h k = ground arith
  in_self nil (node a b m t x o) h k = ground arith
  in_self (node a b m t x o) nil h k = ground arith
  in_self (node a b m t x o) (node a' b' m' t' x' o') h k = ground arith

-- What a weight below the total finds: a host, one of whose weights it is.
abbrev pub Finds : Node → ℕ → Type 0
Finds t w =
    (p : List Turn) × (e : HostEntry) × (node_at_weight t w ≡ some p)
    × (host_at t p ≡ some e)
    × (start t p ≤ w)
    × (w < start t p + e.weight)

Finds-left :
    (l r : Node) (c total : ℕ) (taken : Bool) (old : Option HostEntry) (w : ℕ)
    → w ≤ total
    → w < weight l
    → Finds l w
    → Finds (node l r c taken total old) w
Finds-left l r c total taken old w h k (p, e, run, there, from, to) =
    (left ∷ p, e, in_left c total taken old w l r h k ∙ ap (below left) run, there, from, to)

Finds-right :
    (l r : Node) (c total : ℕ) (taken : Bool) (old : Option HostEntry) (w : ℕ)
    → w ≤ total
    → weight l ≤ w
    → w < weight l + weight r
    → Finds r (w - weight l)
    → Finds (node l r c taken total old) w
Finds-right l r c total taken old w h k m (p, e, run, there, from, to) = (
  right ∷ p,
  e,
  in_right c total taken old w l r h k m ∙ ap (below right) run,
  there,
  omega arith,
  omega arith,
)

Finds-self :
    (l r : Node) (c total : ℕ) (taken : Bool) (old : Option HostEntry) (w : ℕ)
    → IsWeighed (node l r c taken total old)
    → w < total
    → weight l + weight r ≤ w
    → Finds (node l r c taken total old) w
Finds-self l r c total true (some e) w i h k =
    ([], e, in_self c total true (some e) w l r (omega arith) k, refl, k, omega (arith, i.2))
Finds-self l r c total true none w i h k = ground (arith, i.3)
Finds-self l r c total false old w i h k = absurd (omega (arith, i.2))

Finds-weight : (t : Node) (w : ℕ) → IsWeighed t → w < weight t → Finds t w
Finds-weight nil w i h = absurd (omega arith)
Finds-weight (node l r c taken total old) w i h = elim (dec_lt w (weight l)) [
  | yes k ↦ Finds-left l r c total taken old w (omega arith) k (Finds-weight l w i.0 k)
  | no k ↦ elim (dec_lt w (weight l + weight r)) [
    | yes m ↦
        Finds-right l r c total taken old w (omega arith) (omega arith) m
          (Finds-weight r (w - weight l) i.1 (omega arith))
    | no m ↦ Finds-self l r c total taken old w i h (omega arith)
  ]
]

-- Every weight of a host finds it.
found :
    (t : Node) (p : List Turn) (e : HostEntry) (k : ℕ)
    → IsWeighed t
    → host_at t p ≡ some e
    → k < e.weight
    → node_at_weight t (start t p + k) ≡ some p
found nil p e k i h small = ground arith
found (node l r c false w old) [] e k i h small = ground arith
found (node l r c true w old) [] e k i h small =
    in_self c w true old (weight l + weight r + k) l r (omega (arith, i.2, ap own h)) (omega arith)
found (node l r c taken w old) (left ∷ p) e k i h small =
    let fits = start-weight l p e i.0 h in
    in_left c w taken old (start l p + k) l r (omega (arith, i.2)) (omega arith)
    ∙ ap (below left) (found l p e k i.0 h small)
found (node l r c taken w old) (right ∷ p) e k i h small =
    let fits = start-weight r p e i.1 h in
    let past : weight l + start r p + k - weight l ≡ start r p + k = omega arith in
    in_right c w taken old (weight l + start r p + k) l r (omega (arith, i.2)) (omega arith)
      (omega arith)
    ∙ ap (below right) (ap (node_at_weight r) past ∙ found r p e k i.1 h small)

some_injective : (p q : List Turn) → Path (Option (List Turn)) (some p) (some q) → p ≡ q
some_injective p q h = cc

-- A weight below the total that finds a node is one of that node's own.
found_at :
    (t : Node) (w : ℕ) (p : List Turn)
    → Finds t w
    → node_at_weight t w ≡ some p
    → (start t p ≤ w) × ((e : HostEntry) → host_at t p ≡ some e → w < start t p + e.weight)
found_at t w p (q, e, run, there, from, to) h =
    let same : q ≡ p = some_injective q p (sym run ∙ h) in
    (
      subst (λ r. start t r ≤ w) same from,
      λ e' there'.
          let entry : some e ≡ some e' = sym there ∙ ap (host_at t) same ∙ there' in
          omega (arith, to, ap own entry, ap (start t) same),
    )

-- In a tree with the right weights, nodeAtWeight finds a host at every weight below the total, and each
-- host at as many weights, one after the other, as its own weight says, and at no other weight below
-- the total.
pub node_at_weight-share :
    (t : Node)
    → IsWeighed t
    → ((w : ℕ) → w < weight t → Finds t w)
      × ((p : List Turn) (e : HostEntry)
          → host_at t p ≡ some e
          → (start t p + e.weight ≤ weight t)
            × ((k : ℕ) → k < e.weight → node_at_weight t (start t p + k) ≡ some p)
            × ((w : ℕ)
                → w < weight t
                → node_at_weight t w ≡ some p
                → (start t p ≤ w) × (w < start t p + e.weight)))
node_at_weight-share t i = (
  λ w h. Finds-weight t w i h,
  λ p e h. (
    start-weight t p e i h,
    λ k small. found t p e k i h small,
    λ w low run. let (from, to) = found_at t w p (Finds-weight t w i low) run in (from, to e h),
  ),
)
