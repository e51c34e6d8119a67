-- ===== src/Renter/HostTree/Examples.antt =====
-- A tree with two hosts, and a draw from it.
use hyperspace.Common.{
  ℕ, ◌+◌, ◌≤◌, ◌<◌, ◌≡◌, refl, List, [], ◌∷◌, true, false, Option, none, some, arith, ok, err, map,
  ◌-◌, ◌/◌,
}
use hyperspace.Common.Result.{Result}
use hyperspace.Renter.HostTree.{
  HostDbEntry, HostEntry, key, left, Turn, new, HostTree, Error, enter, weighed, insert, modify,
  remove, select, weight, recursive_insert, node_at_weight, entry_at, take_out, take_off,
}
use hyperspace.Renter.HostTree.Weights.{host_at}
use hyperspace.Renter.HostTree.Draw.{start, Finds, node_at_weight-share}
use hyperspace.Renter.HostTree.Balance.{IsFlat, recursive_insert-IsFlat}
use hyperspace.Renter.HostTree.Refinement.{
  Represents, Refines, Hosts, with_host, insert_host, modify_host, remove_host, enter-Represents,
  new-Represents, host_tree-Refines,
}
use hyperspace.Renter.HostTree.Filter.{Ip, filtered, filter_add}
use hyperspace.Renter.HostTree.Random.{
  select_random, filter_hosts, take_blacklist, draw_hosts, draw_one, version_cmp,
}
use hyperspace.Renter.HostTree.Random.Selection.{IsSelection, select_random-IsSelection}

abbrev host : ℕ → ℕ → HostDbEntry
host k address = record {
  public_key = k;
  net_address = address;
  accepting_contracts = true;
  scan_history = false ∷ true ∷ [];
  version = 0 ∷ 2 ∷ 4 ∷ [];
}

-- The weight of a host is its key.
abbrev by_key : HostDbEntry → ℕ
by_key h = h.public_key

abbrev no_hosts : Hosts
no_hosts k = none

abbrev one : HostTree
one = enter (new by_key) (weighed (new by_key) (host 3 70))

abbrev two : HostTree
two = enter one (weighed one (host 5 80))

one-Represents : Represents one (with_host no_hosts by_key (host 3 70)) by_key
one-Represents =
    enter-Represents (new by_key) no_hosts (new-Represents by_key) (host 3 70) refl (omega arith)

two-Represents :
    Represents two (with_host (with_host no_hosts by_key (host 3 70)) by_key (host 5 80)) by_key
unfolding enter recursive_insert
two-Represents =
    enter-Represents one (with_host no_hosts by_key (host 3 70)) one-Represents (host 5 80) refl
      (omega arith)

abbrev both : Hosts
both = with_host (with_host no_hosts by_key (host 3 70)) by_key (host 5 80)

host_tree-Refines_example :
    (select two 3 ≡ ok (both 3))
    × Refines (insert two (host 7 90)) (insert_host both by_key (host 7 90)) by_key
    × Refines (modify two (host 7 90)) (modify_host both by_key (host 7 90)) by_key
    × Refines (remove two 3) (remove_host both 3) by_key
unfolding enter
host_tree-Refines_example = host_tree-Refines two both (host 7 90) 3 two-Represents (omega arith)

node_at_weight-share_example :
    ((w : ℕ) → w < weight two.root → Finds two.root w)
    × ((p : List Turn) (e : HostEntry)
        → host_at two.root p ≡ some e
        → (start two.root p + e.weight ≤ weight two.root)
          × ((k : ℕ) → k < e.weight → node_at_weight two.root (start two.root p + k) ≡ some p)
          × ((w : ℕ)
              → w < weight two.root
              → node_at_weight two.root w ≡ some p
              → (start two.root p ≤ w) × (w < start two.root p + e.weight)))
node_at_weight-share_example = node_at_weight-share two.root two-Represents.linked.weighed

draws : node_at_weight two.root 4 ≡ some (left ∷ [])
unfolding enter recursive_insert node_at_weight
draws = refl

abbrev third : HostEntry
third = weighed two (host 7 90)

recursive_insert-IsFlat_example :
    IsFlat two.root
      (recursive_insert true two.root third).0
      (recursive_insert true two.root third).1
      (recursive_insert true two.root third).2
recursive_insert-IsFlat_example =
    recursive_insert-IsFlat true two.root third two-Represents.linked.balanced

-- Every address resolves to one IP, whose subnet is its tenth.
abbrev lookup : ℕ → Option (List Ip)
lookup address = some (record { is_ipv4 = true; size = 4; bytes = address ∷ [] } ∷ [])

abbrev cidr : Ip → ℕ → Option ℕ
cidr ip range = elim ip.bytes [ [] ↦ none | b ∷ r ↦ some (b / 10) ]

-- The greatest number below the bound.
abbrev greatest : ℕ → ℕ → ℕ
greatest round bound = bound - 1

below : (round bound : ℕ) → 0 < bound → greatest round bound < bound
below round bound h = omega arith

select_random-IsSelection_example :
    (ht' : HostTree) × (hosts : List HostEntry) × (select_random lookup cidr greatest 9 two 4
        (5 ∷ [])
        (11 ∷ [])
      ≡ ok (ht', hosts))
    × IsSelection lookup cidr two 4 (5 ∷ []) (11 ∷ []) ht' hosts
unfolding enter recursive_insert
select_random-IsSelection_example =
    select_random-IsSelection lookup cidr greatest below 9 4 two (5 ∷ []) (11 ∷ [])
      two-Represents.linked (omega arith)

abbrev chosen : Result Error (HostTree × List HostEntry) → List ℕ
chosen (ok r) = map key r.1
chosen (err e) = []

picks_both : chosen (select_random lookup cidr greatest 9 two 4 [] []) ≡ 3 ∷ 5 ∷ []
unfolding select_random enter recursive_insert filter_hosts take_blacklist draw_hosts draw_one
    node_at_weight entry_at take_out version_cmp filtered take_off filter_add
picks_both = refl
