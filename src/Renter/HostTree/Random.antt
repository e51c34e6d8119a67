-- ===== src/Renter/HostTree/Random.antt =====
-- SelectRandom in modules/renter/hostdb/hosttree/hosttree.go, and VersionCmp in build/version.go. The
-- resolver, net.ParseCIDR and the source of random numbers below a bound (its rounds are counted) are
-- parameters.
pub mod Restore
pub mod Chosen
pub mod Loop
pub mod Selection
use Prim.Native.Nat.{compare, Ordering}
use Prim.Native.Nat.Ordering.{lt, eq, gt}
use hyperspace.Common.{
  ℕ, zero, suc, List, [], ◌∷◌, ◌++◌, Bool, true, false, not, ◌&&◌, Option, none, some, ltb, ◌==◌,
  if◌then◌else◌, length, ok, err, ◌>>=◌, ◌>>◌, guard, or_err,
}
use hyperspace.Common.Result.{Result}
use hyperspace.Renter.HostTree.{
  HostEntry, key, weight, node_at_weight, entry_at, Error, panics, runs_on, HostTree, get, enter,
  take_out,
}
use hyperspace.Renter.HostTree.Filter.{Ip, filter_add, filtered}

unfoldable pub version_cmp : List ℕ → List ℕ → Ordering
version_cmp [] [] = eq
version_cmp [] (b ∷ bs) = lt
version_cmp (a ∷ r) [] = gt
version_cmp (a ∷ r) (b ∷ bs) = elim (compare a b) [ lt ↦ lt | gt ↦ gt | eq ↦ version_cmp r bs ]

abbrev pub last : List Bool → Bool
last [] = false
last (x ∷ []) = x
last (x ∷ y ∷ r) = last (y ∷ r)

abbrev pub at_least : List ℕ → List ℕ → Bool
at_least version least = elim (version_cmp version least) [ lt ↦ false | _ ↦ true ]

-- A host that is online and has the new protocol.
abbrev pub acceptable : HostEntry → Bool
acceptable e =
    e.host.accepting_contracts
    && (last e.host.scan_history && at_least e.host.version (0 ∷ 2 ∷ 3 ∷ []))

-- The blacklist is taken out of the tree, and remembered.
unfoldable pub take_blacklist :
    HostTree → List HostEntry → List ℕ → Result Error (HostTree × List HostEntry)
take_blacklist ht removed [] = ok (ht, removed)
take_blacklist ht removed (k ∷ ks) = elim (get ht.hosts k) [
  | none ↦ take_blacklist ht removed ks
  | some p ↦ take_out ht k p >>= λ taken. take_blacklist taken.0 (removed ++ (taken.1 ∷ [])) ks
]

-- The removed entries are inserted again.
unfoldable pub put_back : HostTree → List HostEntry → HostTree
put_back ht [] = ht
put_back ht (e ∷ es) = put_back (enter ht e) es

-- The state of the loop.
pub record Draw : Type 0 where
  pub tree : HostTree
  pub removed : List HostEntry
  pub hosts : List HostEntry
  pub filter : List ℕ

abbrev pub is_empty {ℓ} : {A : Type ℓ} → List A → Bool
is_empty [] = true
is_empty (x ∷ xs) = false

module _ (lookup_ip : ℕ → Option (List Ip)) (parse_cidr : Ip → ℕ → Option ℕ)
    (big_intn : ℕ → ℕ → ℕ) where
  unfoldable pub filter_hosts : HostTree → List ℕ → List ℕ → Result Error (List ℕ)
  filter_hosts ht filter [] = ok filter
  filter_hosts ht filter (k ∷ ks) = elim (get ht.hosts k) [
    | none ↦ filter_hosts ht filter ks
    | some p ↦ or_err (entry_at ht.root p) panics >>= λ e.
        filter_hosts ht (filter_add lookup_ip parse_cidr filter e.host.net_address) ks
  ]

  -- A host that is picked goes to the result, and its addresses to the filter.
  unfoldable pub pick : List HostEntry → List ℕ → HostEntry → List HostEntry × List ℕ
  pick hosts filter e =
      if acceptable e && not (filtered lookup_ip parse_cidr filter e.host.net_address)
      then (hosts ++ (e ∷ []), filter_add lookup_ip parse_cidr filter e.host.net_address)
      else (hosts, filter)

  -- A round of the loop, with its draw.
  unfoldable pub draw_one : ℕ → Draw → Result Error Draw
  unfolding pick
  draw_one round s = do
    guard (not (weight s.tree.root == 0)) panics
    p ← or_err (node_at_weight s.tree.root (big_intn round (weight s.tree.root))) panics
    e ← or_err (entry_at s.tree.root p) panics
    taken ← take_out s.tree (key e) p
    let picked = pick s.hosts s.filter e
    ok (record {
      tree = taken.0;
      removed = s.removed ++ (e ∷ []);
      hosts = picked.0;
      filter = picked.1;
    })

  unfoldable pub draw_hosts : ℕ → ℕ → Draw → Result Error Draw
  draw_hosts zero n s = err runs_on
  draw_hosts (suc fuel) n s = elim (ltb (length s.hosts) n && not (is_empty s.tree.hosts)) [
    | true ↦ draw_one fuel s >>= λ s'. draw_hosts fuel n s'
    | false ↦ ok s
  ]

  -- SelectRandom: the tree that it leaves, and the hosts.
  unfoldable pub select_random :
      ℕ → HostTree → ℕ → List ℕ → List ℕ → Result Error (HostTree × List HostEntry)
  select_random fuel ht n blacklist address_blacklist = do
    filter ← filter_hosts ht [] address_blacklist
    start ← take_blacklist ht [] blacklist
    s ←
        draw_hosts fuel n
          (record { tree = start.0; removed = start.1; hosts = []; filter = filter })
    ok (put_back s.tree s.removed, s.hosts)
