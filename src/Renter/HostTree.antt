-- ===== src/Renter/HostTree.antt =====
-- modules/renter/hostdb/hosttree/hosttree.go: the tree from which the renter draws its hosts. A node is
-- where it stands: the turns that lead to it from the root, which stay the same, since no node is ever
-- moved or dropped. Its parent is what the turns pass. A count of nodes stays in an int.
pub mod Weights
pub mod Draw
pub mod Balance
pub mod Hosts
pub mod Refinement
pub mod Filter
pub mod Random
pub mod Examples
use hyperspace.Common.{
  ℕ, ◌+◌, List, [], ◌∷◌, Bool, true, false, not, ◌&&◌, Option, none, some, ltb, leb, ◌==◌,
  if◌then◌else◌, is_some, ok, err, ◌>>=◌, or_err,
}
use hyperspace.Common.Result.{Result}
use hyperspace.Types.Currency.{Currency, add, sub}

-- The fields that the tree reads. Keys and addresses are numbers in place of texts, a scan is its
-- success, and a version is the list of the numbers between its dots.
pub record HostDbEntry : Type 0 where
  pub public_key : ℕ
  pub net_address : ℕ
  pub accepting_contracts : Bool
  pub scan_history : List Bool
  pub version : List ℕ

pub record HostEntry : Type 0 where
  pub host : HostDbEntry
  pub weight : Currency

abbrev pub key : HostEntry → ℕ
key e = e.host.public_key

pub data Node : Type 0 where
  nil : Node
  node :
      (left_child right_child : Node) (count : ℕ) (taken : Bool) (weight : Currency)
      (entry : Option HostEntry)
      → Node

pub data Turn : Type 0 where
  left right : Turn

abbrev pub is_nil : Node → Bool
is_nil nil = true
is_nil (node l r c t w e) = false

abbrev pub count : Node → ℕ
count nil = 0
count (node l r c t w e) = c

abbrev pub weight : Node → Currency
weight nil = 0
weight (node l r c t w e) = w

abbrev pub create_node : HostEntry → Node
create_node e = node nil nil 1 true e.weight (some e)

abbrev pub new_root : Node
new_root = node nil nil 1 false 0 none

-- The new tree, the number of nodes added and where the entry is. The flag tells the root, which has
-- no parent. The code meets no nil node: it creates one in place of a child that is nil.
unfoldable pub recursive_insert : Bool → Node → HostEntry → Node × ℕ × List Turn
unfolding add
recursive_insert root nil e = (create_node e, 1, [])
recursive_insert root (node l r c taken w old) e =
    let to_left : Node × ℕ × List Turn =
      let (l', added, p) = recursive_insert false l e in
      (node l' r (c + added) taken (add w e.weight) old, added, left ∷ p) in
    let to_right : Node × ℕ × List Turn =
      let (r', added, p) = recursive_insert false r e in
      (node l r' (c + added) taken (add w e.weight) old, added, right ∷ p) in
    if root && (is_nil l && (is_nil r && not taken))
    then (node l r c true e.weight (some e), 0, [])
    else if not taken
    then (node l r c true (add w e.weight) (some e), 0, [])
    else if is_nil l
    then to_left
    else if is_nil r
    then to_right
    else if leb (count l) (count r)
    then to_left
    else to_right

abbrev pub below : Turn → Option (List Turn) → Option (List Turn)
below turn none = none
below turn (some p) = some (turn ∷ p)

-- The node at a weight; none is the nil that follows a report of build.Critical.
unfoldable pub node_at_weight : Node → Currency → Option (List Turn)
unfolding sub
node_at_weight nil w = none
node_at_weight (node l r c taken total e) w =
    let in_left : Option (List Turn) = below left (node_at_weight l w) in
    let w' : Currency = if is_nil l then w else sub w (weight l) in
    let in_right : Option (List Turn) = below right (node_at_weight r w') in
    if ltb total w
    then none
    else if not (is_nil l) && ltb w (weight l)
    then in_left
    else if not (is_nil r) && ltb w' (weight r)
    then in_right
    else if taken
    then some []
    else none

unfoldable pub entry_at : Node → List Turn → Option HostEntry
entry_at nil p = none
entry_at (node l r c taken w e) [] = e
entry_at (node l r c taken w e) (left ∷ p) = entry_at l p
entry_at (node l r c taken w e) (right ∷ p) = entry_at r p

-- The weight of the entry is taken off at the node and at its parents.
unfoldable pub take_off : Node → List Turn → Currency → Node
unfolding sub
take_off nil p x = nil
take_off (node l r c taken w e) [] x = node l r c false (sub w x) e
take_off (node l r c taken w e) (left ∷ p) x = node (take_off l p x) r c taken (sub w x) e
take_off (node l r c taken w e) (right ∷ p) x = node l (take_off r p x) c taken (sub w x) e

-- A node or an entry that is nil panics, and so does a draw below a bound that is not above zero. A
-- loop whose rounds are up gives runs_on.
pub data Error : Type 0 where
  host_exists no_such_host panics runs_on : Error

pub record HostTree : Type 0 where
  pub root : Node
  pub hosts : List (ℕ × List Turn)
  pub weight_fn : HostDbEntry → Currency

module _ {ℓ} {V : Type ℓ} where
  abbrev pub get : List (ℕ × V) → ℕ → Option V
  get [] k = none
  get ((j, v) ∷ m) k = if j == k then some v else get m k

  abbrev pub delete : List (ℕ × V) → ℕ → List (ℕ × V)
  delete [] k = []
  delete ((j, v) ∷ m) k = if j == k then delete m k else (j, v) ∷ delete m k

  abbrev pub put : List (ℕ × V) → ℕ → V → List (ℕ × V)
  put m k v = (k, v) ∷ delete m k

-- New; a HostTree's resolver is an argument of SelectRandom.
abbrev pub new : (HostDbEntry → Currency) → HostTree
new wf = record { root = new_root; hosts = []; weight_fn = wf }

-- recursiveInsert at the root, and the note in the map.
unfoldable pub enter : HostTree → HostEntry → HostTree
enter ht e =
    let (root', added, p) = recursive_insert true ht.root e in
    record ht { root = root'; hosts = put ht.hosts (key e) p }

abbrev pub weighed : HostTree → HostDbEntry → HostEntry
weighed ht hdbe = record { host = hdbe; weight = ht.weight_fn hdbe }

unfoldable pub insert : HostTree → HostDbEntry → Result Error HostTree
insert ht hdbe =
    if is_some (get ht.hosts hdbe.public_key)
    then err host_exists
    else ok (enter ht (weighed ht hdbe))

-- The map and the tree without the host at the node, and its entry.
unfoldable pub take_out : HostTree → ℕ → List Turn → Result Error (HostTree × HostEntry)
take_out ht k p = do
  e ← or_err (entry_at ht.root p) panics
  ok (record ht { root = take_off ht.root p e.weight; hosts = delete ht.hosts k }, e)

unfoldable pub remove : HostTree → ℕ → Result Error HostTree
remove ht k = do p ← or_err (get ht.hosts k) no_such_host; taken ← take_out ht k p; ok taken.0

-- The code leaves the note of the old node in the map, and overwrites it here.
unfoldable pub modify : HostTree → HostDbEntry → Result Error HostTree
modify ht hdbe = do
  p ← or_err (get ht.hosts hdbe.public_key) no_such_host
  taken ← take_out ht hdbe.public_key p
  ok (enter taken.0 (weighed ht hdbe))

-- Select, with its second result as the option.
unfoldable pub select : HostTree → ℕ → Result Error (Option HostEntry)
select ht k = elim (get ht.hosts k) [
  | none ↦ ok none
  | some p ↦ do e ← or_err (entry_at ht.root p) panics; ok (some e)
]
