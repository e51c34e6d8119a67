-- ===== src/Renter/HostTree/Random/Loop.antt =====
-- The loops of SelectRandom (modules/renter/hostdb/hosttree/hosttree.go).
use hyperspace.Common.{
  ℕ, zero, suc, ◌≤◌, ◌<◌, ◌≡◌, inl, inr, refl, sym, ap, subst, ◌∙◌, List, [], ◌∷◌, ◌++◌, true,
  false, not, ◌&&◌, Option, none, some, arith, if_rule, Bool-cases, ltb, ◌==◌, ==_iff, ok, contains,
  length,
}
use hyperspace.Common.Result.{Result}
use hyperspace.Renter.HostTree.{HostEntry, key, Turn, weight, Error, HostTree, get, delete, select}
use hyperspace.Renter.HostTree.Weights.{host_at-entry, weight-host_at}
use hyperspace.Renter.HostTree.Draw.{node_at_weight-share}
use hyperspace.Renter.HostTree.Hosts.{
  IsLinked, rest, rest-IsLinked, get-delete, select_cases, take_out-runs, delete_gone,
}
use hyperspace.Renter.HostTree.Filter.{
  Ip, filter_add, filtered, filter_add-keeps, filter_add-InSubnet,
}
use hyperspace.Renter.HostTree.Random.{
  acceptable, Draw, pick, draw_one, draw_hosts, is_empty, take_blacklist, filter_hosts,
}
use hyperspace.Renter.HostTree.Random.Restore.{IsAside, rest-IsAside}
use hyperspace.Renter.HostTree.Random.Chosen.{Covered, IsDrawn, passed, picked}

length-delete : (m : List (ℕ × List Turn)) (k : ℕ) → length (delete m k) ≤ length m
length-delete [] k = omega arith
length-delete ((j, v) ∷ m) k = ground (arith, length-delete m k)

delete_less :
    (m : List (ℕ × List Turn)) (k : ℕ) (v : List Turn)
    → get m k ≡ some v
    → length (delete m k) < length m
delete_less [] k v h = ground arith
delete_less ((j, u) ∷ m) k v h = ground (arith, length-delete m k, delete_less m k v)

other_host : {e : HostEntry} → Path (Result Error (Option HostEntry)) (ok none) (ok (some e)) → ⊥
other_host h = cc

same_host :
    {x e : HostEntry} → Path (Result Error (Option HostEntry)) (ok (some x)) (ok (some e)) → x ≡ e
same_host h = cc

not_zero : (w : ℕ) → 0 < w → not (w == 0) ≡ true
not_zero w h = ground arith

-- A tree with hosts has a weight.
weight_of_hosts : (ht : HostTree) → IsLinked ht → is_empty ht.hosts ≡ false → 0 < weight ht.root
weight_of_hosts ht i h =
    let (k, p, noted) = first ht.hosts h in
    let (e, there, same) = i.standing k p noted in
    omega (arith, weight-host_at ht.root p e i.weighed there, i.positive p e there)
  where
    first :
        (m : List (ℕ × List Turn))
        → is_empty m ≡ false
        → (k : ℕ) × (p : List Turn) × (get m k ≡ some p)
    first [] q = ground arith
    first ((j, v) ∷ m) q = (j, v, ground arith)

module _ (lookup_ip : ℕ → Option (List Ip)) (parse_cidr : Ip → ℕ → Option ℕ) (big_intn : ℕ → ℕ → ℕ)
    (below : (round bound : ℕ) → 0 < bound → big_intn round bound < bound) where
  module _ (ht : HostTree) (n : ℕ) (banned filter : List ℕ) where
    abbrev D : Draw → Type 0
    D s = IsDrawn lookup_ip parse_cidr ht n banned filter s

    round-IsDrawn :
        (round : ℕ) (s : Draw)
        → D s
        → length s.hosts < n
        → is_empty s.tree.hosts ≡ false
        → (s' : Draw) × (draw_one lookup_ip parse_cidr big_intn round s ≡ ok s')
          × D s'
          × (length s'.tree.hosts < length s.tree.hosts)
    unfolding draw_one pick
    round-IsDrawn round s d room more =
        let heavy = weight_of_hosts s.tree d.linked more in
        let total = weight s.tree.root in
        let (p, e, finds, there, from, to) =
          (node_at_weight-share s.tree.root d.linked.weighed).0 (big_intn round total)
            (below round total heavy) in
        let noted = d.linked.noted p e there in
        let P = λ (x : List HostEntry × List ℕ). D (record {
          tree = rest s.tree d.linked (key e) p e noted there;
          removed = s.removed ++ (e ∷ []);
          hosts = x.0;
          filter = x.1;
        }) in
        (
          record {
            tree = rest s.tree d.linked (key e) p e noted there;
            removed = s.removed ++ (e ∷ []);
            hosts = (pick lookup_ip parse_cidr big_intn s.hosts s.filter e).0;
            filter = (pick lookup_ip parse_cidr big_intn s.hosts s.filter e).1;
          },
          rw (not_zero total heavy) (
              rw finds (
                rw (host_at-entry s.tree.root p e there)
                  (rw (take_out-runs s.tree d.linked (key e) p e noted there) refl))),
          if_rule P
              (acceptable e && not (filtered lookup_ip parse_cidr s.filter e.host.net_address))
              (λ h.
                picked lookup_ip parse_cidr ht n banned filter s d p e noted there room
                  (ground arith) (ground arith))
              (λ h. passed lookup_ip parse_cidr ht n banned filter s d p e noted there),
          delete_less s.tree.hosts (key e) p noted,
        )

    pub draw_hosts-IsDrawn :
        (fuel : ℕ) (s : Draw)
        → D s
        → length s.tree.hosts < fuel
        → (s' : Draw) × (draw_hosts lookup_ip parse_cidr big_intn fuel n s ≡ ok s') × D s'
    unfolding draw_hosts
    draw_hosts-IsDrawn zero s d h = absurd (omega arith)
    draw_hosts-IsDrawn (suc fuel) s d h =
        elim (Bool-cases (ltb (length s.hosts) n && not (is_empty s.tree.hosts))) [
          | inl more ↦
              let (s1, run, d1, less) = round-IsDrawn fuel s d (ground arith) (ground arith) in
              let (s2, rest_run, d2) = draw_hosts-IsDrawn fuel s1 d1 (omega arith) in
              (s2, rw (more, draw_hosts) (rw run rest_run), d2)
          | inr over ↦ (s, rw (over, draw_hosts) refl, d)
        ]

  -- The filter has the subnets of the listed hosts.
  pub filter_hosts-Covered :
      (ht : HostTree) (i : IsLinked ht) (filter : List ℕ) (ks : List ℕ)
      → (filter' : List ℕ) × (filter_hosts lookup_ip parse_cidr big_intn ht filter ks ≡ ok filter')
        × ((t : ℕ) → contains filter t ≡ true → contains filter' t ≡ true)
        × ((k : ℕ) (e : HostEntry)
            → contains ks k ≡ true
            → select ht k ≡ ok (some e)
            → Covered lookup_ip parse_cidr filter' e)
  unfolding filter_hosts
  filter_hosts-Covered ht i filter [] = (filter, refl, λ t h. h, λ k e h s. ground arith)
  filter_hosts-Covered ht i filter (k ∷ ks) = elim (select_cases ht i k) [
    | inl (absent, s0) ↦
        let (f, run, wider, covers) = filter_hosts-Covered ht i filter ks in
        (
          f,
          rw (absent, filter_hosts) run,
          wider,
          λ j e h s. elim (Bool-cases (j == k)) [
            | inl hit ↦ absurd (other_host (sym s0 ∙ ap (select ht) (sym ((==_iff j k).0 hit)) ∙ s))
            | inr miss ↦ covers j e (ground arith) s
          ],
        )
    | inr (p, x, noted, there, same, s0) ↦
        let (f, run, wider, covers) =
          filter_hosts-Covered ht i (filter_add lookup_ip parse_cidr filter x.host.net_address)
            ks in
        (
          f,
          rw (noted, filter_hosts) (rw (host_at-entry ht.root p x there) run),
          λ t h. wider t (filter_add-keeps lookup_ip parse_cidr filter x.host.net_address t h),
          λ j e h s. elim (Bool-cases (j == k)) [
            | inl hit ↦
                subst (λ y. Covered lookup_ip parse_cidr f y)
                  (same_host (sym s0 ∙ ap (select ht) (sym ((==_iff j k).0 hit)) ∙ s))
                  (λ t st.
                    wider t
                      (filter_add-InSubnet lookup_ip parse_cidr filter x.host.net_address t st))
            | inr miss ↦ covers j e (ground arith) s
          ],
        )
  ]

-- The blacklist leaves the tree, and nothing else.
pub take_blacklist-IsAside :
    (ht0 ht : HostTree) (aside : List HostEntry) (ks : List ℕ)
    → IsLinked ht
    → IsAside ht0 ht aside
    → (ht' : HostTree) × (aside' : List HostEntry) × (take_blacklist ht aside ks ≡ ok (ht', aside'))
      × IsLinked ht'
      × IsAside ht0 ht' aside'
      × ((k : ℕ) → get ht.hosts k ≡ none → get ht'.hosts k ≡ none)
      × ((k : ℕ) → contains ks k ≡ true → get ht'.hosts k ≡ none)
      × (length ht'.hosts ≤ length ht.hosts)
unfolding take_blacklist
take_blacklist-IsAside ht0 ht aside [] i a =
    (ht, aside, refl, i, a, λ k h. h, λ k h. ground arith, omega arith)
take_blacklist-IsAside ht0 ht aside (k ∷ ks) i a = elim (select_cases ht i k) [
  | inl (absent, s0) ↦
      let (ht', aside', run, i', a', keeps, banned, less) =
        take_blacklist-IsAside ht0 ht aside ks i a in
      (
        ht',
        aside',
        rw (absent, take_blacklist) run,
        i',
        a',
        keeps,
        λ j h. elim (Bool-cases (j == k)) [
          | inl hit ↦ keeps j (ap (get ht.hosts) ((==_iff j k).0 hit) ∙ absent)
          | inr miss ↦ banned j (ground arith)
        ],
        less,
      )
  | inr (p, e, noted, there, same, s0) ↦
      let ht1 = rest ht i k p e noted there in
      let (ht', aside', run, i', a', keeps, banned, less) =
        take_blacklist-IsAside ht0 ht1 (aside ++ (e ∷ [])) ks (rest-IsLinked ht i k p e noted there)
          (rest-IsAside ht0 ht aside i a k p e noted there) in
      (
        ht',
        aside',
        rw (noted, take_blacklist) (rw (take_out-runs ht i k p e noted there) run),
        i',
        a',
        λ j h. keeps j (delete_gone ht.hosts k j h),
        λ j h. elim (Bool-cases (j == k)) [
          | inl hit ↦ keeps j (ground (arith, get-delete ht.hosts k j, (==_iff j k).0 hit))
          | inr miss ↦ banned j (ground arith)
        ],
        omega (arith, delete_less ht.hosts k p noted),
      )
]
