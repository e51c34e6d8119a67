-- ===== src/Renter/HostTree/Random/Chosen.antt =====
-- The hosts that SelectRandom returns (modules/renter/hostdb/hosttree/hosttree.go).
use hyperspace.Common.{
  ℕ, ◌≤◌, ◌<◌, ◌≡◌, ◌≢◌, inl, inr, ap, ◌∙◌, List, [], ◌∷◌, ◌++◌, true, false, Option, none, some,
  arith, Bool-cases, ok, All, All-mono, All-append, All-both, contains, length, length-append,
}
use hyperspace.Renter.HostTree.{HostEntry, key, Turn, HostTree, get, select}
use hyperspace.Renter.HostTree.Weights.{host_at}
use hyperspace.Renter.HostTree.Hosts.{
  IsLinked, rest, rest-IsLinked, get-delete, select-noted, delete_gone,
}
use hyperspace.Renter.HostTree.Filter.{
  Ip, filter_add, filtered, InSubnet, filter_add-keeps, filter_add-InSubnet, filtered-InSubnet,
}
use hyperspace.Renter.HostTree.Random.{acceptable, Draw}
use hyperspace.Renter.HostTree.Random.Restore.{
  AllPairs, AllPairs-snoc, Gone, IsAside, rest-IsAside, search_key-none, or_select,
}

module _ (lookup_ip : ℕ → Option (List Ip)) (parse_cidr : Ip → ℕ → Option ℕ) where
  abbrev pub Stands : ℕ → HostEntry → Type 0
  Stands t e = InSubnet lookup_ip parse_cidr t e.host.net_address

  -- Two hosts with keys of their own and no subnet in common.
  abbrev pub Differ : HostEntry → HostEntry → Type 0
  Differ e e' = (key e ≢ key e') × ((t : ℕ) → Stands t e → Stands t e' → ⊥)

  -- A host of the tree that is acceptable, not banned, and in no subnet of the filter.
  abbrev pub Fits : HostTree → List ℕ → List ℕ → HostEntry → Type 0
  Fits ht banned filter e =
      (select ht (key e) ≡ ok (some e))
      × (acceptable e ≡ true)
      × (contains banned (key e) ≡ false)
      × ((t : ℕ) → Stands t e → contains filter t ≡ false)

  abbrev pub Covered : List ℕ → HostEntry → Type 0
  Covered filter e = (t : ℕ) → Stands t e → contains filter t ≡ true

  -- What holds in the loop: the tree lacks the hosts that are set aside, and those picked.
  pub record IsDrawn (ht : HostTree) (n : ℕ) (banned filter : List ℕ) (s : Draw) : Type 0 where
    pub linked : IsLinked s.tree
    pub aside : IsAside ht s.tree s.removed
    pub few : length s.hosts ≤ n
    pub fit : All (Fits ht banned filter) s.hosts
    pub apart : AllPairs Differ s.hosts
    pub gone : All (Gone s.tree) s.hosts
    pub covered : All (Covered s.filter) s.hosts
    pub wider : (t : ℕ) → contains filter t ≡ true → contains s.filter t ≡ true
    pub banned_gone : (k : ℕ) → contains banned k ≡ true → get s.tree.hosts k ≡ none

  module _ (ht : HostTree) (n : ℕ) (banned filter : List ℕ) (s : Draw)
      (d : IsDrawn ht n banned filter s) (p : List Turn) (e : HostEntry)
      (noted : get s.tree.hosts (key e) ≡ some p) (there : host_at s.tree.root p ≡ some e) where
    abbrev pub left_over : HostTree
    left_over = rest s.tree d.linked (key e) p e noted there

    still_gone : (k : ℕ) → get s.tree.hosts k ≡ none → get left_over.hosts k ≡ none
    still_gone k h = delete_gone s.tree.hosts (key e) k h

    from_first : select ht (key e) ≡ ok (some e)
    from_first =
        d.aside.whole (key e)
        ∙ ap (or_select s.tree (key e)) (
            search_key-none s.removed (key e) (
              All-mono (λ x g same. ground (arith, noted, g, ap (get s.tree.hosts) same)) s.removed
                d.aside.gone))
        ∙ select-noted s.tree (key e) p e noted there

    -- A host that is not picked.
    pub passed : IsDrawn ht n banned filter (record {
      tree = left_over;
      removed = s.removed ++ (e ∷ []);
      hosts = s.hosts;
      filter = s.filter;
    })
    passed = record {
      linked = rest-IsLinked s.tree d.linked (key e) p e noted there;
      aside = rest-IsAside ht s.tree s.removed d.linked d.aside (key e) p e noted there;
      few = d.few;
      fit = d.fit;
      apart = d.apart;
      gone = All-mono (λ x g. still_gone (key x) g) s.hosts d.gone;
      covered = d.covered;
      wider = d.wider;
      banned_gone = λ k b. still_gone k (d.banned_gone k b);
    }

    module _ (room : length s.hosts < n) (good : acceptable e ≡ true)
        (clear : filtered lookup_ip parse_cidr s.filter e.host.net_address ≡ false) where
      abbrev pub wide : List ℕ
      wide = filter_add lookup_ip parse_cidr s.filter e.host.net_address

      not_covered : (t : ℕ) → Stands t e → contains s.filter t ≡ false
      not_covered t h = filtered-InSubnet lookup_ip parse_cidr s.filter e.host.net_address t clear h

      fits : Fits ht banned filter e
      fits = (
        from_first,
        good,
        elim (Bool-cases (contains banned (key e))) [
          | inl b ↦ ground (arith, noted, d.banned_gone (key e) b)
          | inr b ↦ b
        ],
        λ t h. elim (Bool-cases (contains filter t)) [
          | inl b ↦ ground (arith, d.wider t b, not_covered t h)
          | inr b ↦ b
        ],
      )

      differs : (x : HostEntry) → Covered s.filter x × Gone s.tree x → Differ x e
      differs x (c, g) = (
        λ same. ground (arith, noted, g, ap (get s.tree.hosts) same),
        λ t h k. ground (arith, c t h, not_covered t k),
      )

      pub picked : IsDrawn ht n banned filter (record {
        tree = left_over;
        removed = s.removed ++ (e ∷ []);
        hosts = s.hosts ++ (e ∷ []);
        filter = wide;
      })
      picked = record {
        linked = rest-IsLinked s.tree d.linked (key e) p e noted there;
        aside = rest-IsAside ht s.tree s.removed d.linked d.aside (key e) p e noted there;
        few = omega (arith, length-append s.hosts (e ∷ []));
        fit = All-append (Fits ht banned filter) s.hosts (e ∷ []) d.fit (fits, tt);
        apart = AllPairs-snoc Differ s.hosts e d.apart (
            All-mono differs s.hosts
              (All-both (Covered s.filter) (Gone s.tree) s.hosts d.covered d.gone));
        gone =
            All-append (Gone left_over) s.hosts (e ∷ [])
              (All-mono (λ x g. still_gone (key x) g) s.hosts d.gone)
              (ground (arith, get-delete s.tree.hosts (key e) (key e)), tt);
        covered =
            All-append (Covered wide) s.hosts (e ∷ [])
              (All-mono
                (λ x c t h.
                  filter_add-keeps lookup_ip parse_cidr s.filter e.host.net_address t (c t h))
                s.hosts d.covered)
              (λ t h. filter_add-InSubnet lookup_ip parse_cidr s.filter e.host.net_address t h, tt);
        wider = λ t h.
            filter_add-keeps lookup_ip parse_cidr s.filter e.host.net_address t (d.wider t h);
        banned_gone = λ k b. still_gone k (d.banned_gone k b);
      }
