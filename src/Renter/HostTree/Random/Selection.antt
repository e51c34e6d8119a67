-- ===== src/Renter/HostTree/Random/Selection.antt =====
-- What SelectRandom promises (modules/renter/hostdb/hosttree/hosttree.go).
use hyperspace.Common.{
  ℕ, ◌≤◌, ◌<◌, ◌≡◌, refl, List, [], true, false, Option, some, arith, ok, All, All-mono, contains,
  length,
}
use hyperspace.Renter.HostTree.{HostEntry, key, HostTree, select}
use hyperspace.Renter.HostTree.Hosts.{IsLinked}
use hyperspace.Renter.HostTree.Filter.{Ip}
use hyperspace.Renter.HostTree.Random.{acceptable, select_random, put_back}
use hyperspace.Renter.HostTree.Random.Restore.{AllPairs, IsAside, put_back-restores}
use hyperspace.Renter.HostTree.Random.Chosen.{Stands, Differ}
use hyperspace.Renter.HostTree.Random.Loop.{
  draw_hosts-IsDrawn, filter_hosts-Covered, take_blacklist-IsAside,
}

module _ (lookup_ip : ℕ → Option (List Ip)) (parse_cidr : Ip → ℕ → Option ℕ) where
  -- A host that may be returned: an acceptable one of the tree, not in the blacklist, and in no subnet
  -- of a host of the tree that is in the address blacklist.
  pub record IsEligible (ht : HostTree) (blacklist address_blacklist : List ℕ) (e : HostEntry)
      : Type 0 where
    pub of_tree : select ht (key e) ≡ ok (some e)
    pub able : acceptable e ≡ true
    pub allowed : contains blacklist (key e) ≡ false
    pub elsewhere :
        (k : ℕ) (b : HostEntry)
        → contains address_blacklist k ≡ true
        → select ht k ≡ ok (some b)
        → (t : ℕ) → Stands lookup_ip parse_cidr t e
        → Stands lookup_ip parse_cidr t b
        → ⊥

  pub record IsSelection (ht : HostTree) (n : ℕ) (blacklist address_blacklist : List ℕ)
      (ht' : HostTree) (hosts : List HostEntry) : Type 0 where
    pub linked : IsLinked ht'
    pub same : (k : ℕ) → select ht' k ≡ select ht k
    pub few : length hosts ≤ n
    pub eligible : All (IsEligible ht blacklist address_blacklist) hosts
    pub differ : AllPairs (Differ lookup_ip parse_cidr) hosts

module _ (lookup_ip : ℕ → Option (List Ip)) (parse_cidr : Ip → ℕ → Option ℕ) (big_intn : ℕ → ℕ → ℕ)
    (below : (round bound : ℕ) → 0 < bound → big_intn round bound < bound) where
  -- Where the tree and its map are linked and draws are below their bound, SelectRandom returns, within
  -- a round more than there are hosts: at most n hosts of the tree, no two with one key or in one subnet,
  -- each acceptable, not in the blacklist, and in no subnet of a host of the address blacklist. The tree
  -- has the same hosts afterwards.
  pub select_random-IsSelection :
      (fuel n : ℕ) (ht : HostTree) (blacklist address_blacklist : List ℕ)
      → IsLinked ht
      → length ht.hosts < fuel
      → (ht' : HostTree) × (hosts : List HostEntry) × (select_random lookup_ip parse_cidr big_intn
            fuel ht n blacklist address_blacklist
          ≡ ok (ht', hosts))
        × IsSelection lookup_ip parse_cidr ht n blacklist address_blacklist ht' hosts
  unfolding select_random
  select_random-IsSelection fuel n ht blacklist address_blacklist i enough =
      let (filter, filter_run, wider, covers) =
        filter_hosts-Covered lookup_ip parse_cidr big_intn below ht i [] address_blacklist in
      let none_aside : IsAside ht ht [] = record {
        whole = λ k. refl;
        gone = tt;
        apart = tt;
        heavy = tt;
      } in
      let (ht1, aside, out_run, i1, a1, keeps, banned, less) =
        take_blacklist-IsAside ht ht [] blacklist i none_aside in
      let (s, run, d) =
        draw_hosts-IsDrawn lookup_ip parse_cidr big_intn below ht n blacklist filter fuel
          (record { tree = ht1; removed = aside; hosts = []; filter = filter })
          (record {
            linked = i1;
            aside = a1;
            few = omega arith;
            fit = tt;
            apart = tt;
            gone = tt;
            covered = tt;
            wider = λ t h. h;
            banned_gone = banned;
          })
          (omega arith) in
      let (i2, restored) = put_back-restores ht s.tree s.removed d.linked d.aside in
      (
        put_back s.tree s.removed,
        s.hosts,
        rw filter_run (rw out_run (rw run refl)),
        record {
          linked = i2;
          same = restored;
          few = d.few;
          eligible =
              All-mono
                (λ e f. record {
                  of_tree = f.0;
                  able = f.1;
                  allowed = f.2;
                  elsewhere = λ k b h found t here there.
                      ground (arith, f.3 t here, covers k b h found t there);
                })
                s.hosts d.fit;
          differ = d.apart;
        },
      )
