-- ===== src/Renter/HostTree/Hosts.antt =====
-- A host tree and its map of hosts (modules/renter/hostdb/hosttree/hosttree.go).
use hyperspace.Common.{
  ℕ, ◌<◌, ◌≡◌, ◌≢◌, ◌⊎◌, inl, inr, refl, sym, ap, ◌∙◌, List, [], ◌∷◌, true, none, some, arith,
  if◌then◌else◌, Bool-cases, Option-cases, ◌==◌, ==_ne, ok,
}
use hyperspace.Renter.HostTree.{
  HostEntry, key, Turn, recursive_insert, take_off, HostTree, get, put, delete, enter, take_out,
  select,
}
use hyperspace.Renter.HostTree.Weights.{
  host_at, host_at-entry, IsWeighed, IsInsert, recursive_insert-IsInsert, IsRemoval,
  take_off-IsRemoval,
}
use hyperspace.Renter.HostTree.Balance.{IsBalanced, recursive_insert-IsFlat, take_off-IsBalanced}

module _ {ℓ} {V : Type ℓ} where
  pub get-delete :
      (m : List (ℕ × V)) (k j : ℕ) → get (delete m k) j ≡ (if k == j then none else get m j)
  get-delete [] k j = ground arith
  get-delete ((i, v) ∷ m) k j = ground (arith, get-delete m k j)

  get-put :
      (m : List (ℕ × V)) (k : ℕ) (v : V) (j : ℕ)
      → get (put m k v) j ≡ (if k == j then some v else get m j)
  get-put m k v j = ground (arith, get-delete m k j)

module _ {V : Type 0} where
  put_inv :
      (m : List (ℕ × V)) (k : ℕ) (v : V) (j : ℕ) (w : V)
      → get (put m k v) j ≡ some w
      → ((k ≡ j) × (v ≡ w)) ⊎ ((k ≢ j) × (get m j ≡ some w))
  put_inv m k v j w h = ground (arith, get-put m k v j)

  delete_inv :
      (m : List (ℕ × V)) (k j : ℕ) (w : V)
      → get (delete m k) j ≡ some w
      → (k ≢ j) × (get m j ≡ some w)
  delete_inv m k j w h = ground (arith, get-delete m k j)

pub delete_gone : (m : List (ℕ × List Turn)) (k j : ℕ) → get m j ≡ none → get (delete m k) j ≡ none
delete_gone m k j h = ground (arith, get-delete m k j)

-- The tree has its weights and its shape, its hosts have weights above zero, and the map notes for each
-- key the node of the host that has it, and for no other.
pub record IsLinked (ht : HostTree) : Type 0 where
  pub weighed : IsWeighed ht.root
  pub balanced : IsBalanced ht.root
  pub noted :
      (p : List Turn) (e : HostEntry) → host_at ht.root p ≡ some e → get ht.hosts (key e) ≡ some p
  pub standing :
      (k : ℕ) (p : List Turn)
      → get ht.hosts k ≡ some p
      → (e : HostEntry) × (host_at ht.root p ≡ some e) × (key e ≡ k)
  pub positive : (p : List Turn) (e : HostEntry) → host_at ht.root p ≡ some e → 0 < e.weight

pub select-noted :
    (ht : HostTree) (k : ℕ) (p : List Turn) (e : HostEntry)
    → get ht.hosts k ≡ some p
    → host_at ht.root p ≡ some e
    → select ht k ≡ ok (some e)
unfolding select
select-noted ht k p e h there = rw (h, select) (rw (host_at-entry ht.root p e there) refl)

pub select-absent : (ht : HostTree) (k : ℕ) → get ht.hosts k ≡ none → select ht k ≡ ok none
unfolding select
select-absent ht k h = rw (h, select) refl

-- What Select finds: nothing, or the host that the map notes under the key.
abbrev pub Finding : HostTree → ℕ → Type 0
Finding ht k =
    ((get ht.hosts k ≡ none) × (select ht k ≡ ok none))
    ⊎ ((p : List Turn) × (e : HostEntry) × (get ht.hosts k ≡ some p)
        × (host_at ht.root p ≡ some e)
        × (key e ≡ k)
        × (select ht k ≡ ok (some e)))

pub select_cases : (ht : HostTree) → IsLinked ht → (k : ℕ) → Finding ht k
select_cases ht i k = elim (Option-cases (get ht.hosts k)) [
  | inl h ↦ inl (h, select-absent ht k h)
  | inr (p, h) ↦
      let (e, there, same) = i.standing k p h in
      inr (p, e, h, there, same, select-noted ht k p e h there)
]

module _ (ht : HostTree) (i : IsLinked ht) (e : HostEntry) where
  entered :
      IsInsert ht.root e (recursive_insert true ht.root e).0 (recursive_insert true ht.root e).2
  entered = recursive_insert-IsInsert e true ht.root i.weighed

  -- The nodes of the other hosts stay theirs.
  stays :
      (q : List Turn) (x : HostEntry)
      → host_at ht.root q ≡ some x
      → host_at (recursive_insert true ht.root e).0 q ≡ some x
  stays q x h = elim (entered.others q) [
    | inl same ↦ ground (arith, entered.free, ap (host_at ht.root) same)
    | inr same ↦ same ∙ h
  ]

  module _ (fresh : get ht.hosts (key e) ≡ none) (heavy : 0 < e.weight) where
    enter_noted :
        (q : List Turn) (x : HostEntry)
        → host_at (enter ht e).root q ≡ some x
        → ((q ≡ (recursive_insert true ht.root e).2) × (x ≡ e))
          ⊎ ((host_at ht.root q ≡ some x) × (key e ≢ key x))
    unfolding enter
    enter_noted q x h = elim (entered.others q) [
      | inl same ↦ inl (
        same,
        ground (arith, entered.there, ap (host_at (recursive_insert true ht.root e).0) same),
      )
      | inr same ↦
          let was = sym same ∙ h in
          inr (was, λ clash. ground (arith, fresh, ap (get ht.hosts) clash, i.noted q x was))
    ]

    pub enter-IsLinked : IsLinked (enter ht e)
    unfolding enter
    enter-IsLinked = record {
      weighed = entered.sound;
      balanced = (recursive_insert-IsFlat true ht.root e i.balanced).balanced;
      noted = λ q x h. elim (enter_noted q x h) [
        | inl (same, own) ↦ ground (
          arith,
          get-put ht.hosts (key e) (recursive_insert true ht.root e).2 (key x),
          ap key own,
        )
        | inr (was, other) ↦ ground (
          arith,
          get-put ht.hosts (key e) (recursive_insert true ht.root e).2 (key x),
          i.noted q x was,
        )
      ];
      standing = λ k q h.
          elim (put_inv ht.hosts (key e) (recursive_insert true ht.root e).2 k q h) [
            | inl (hit, place) ↦ (
              e,
              ap (host_at (recursive_insert true ht.root e).0) (sym place) ∙ entered.there,
              hit,
            )
            | inr (miss, old) ↦
                let (x, there, same) = i.standing k q old in (x, stays q x there, same)
          ];
      positive = λ q x h. elim (enter_noted q x h) [
        | inl (same, own) ↦ ground (arith, ap (λ (y : HostEntry). y.weight) own)
        | inr (was, other) ↦ i.positive q x was
      ];
    }

    -- Selection sees the new host under its key, and the others as before.
    pub select-enter :
        (k : ℕ) → select (enter ht e) k ≡ (if key e == k then ok (some e) else select ht k)
    unfolding enter
    select-enter k = elim (Bool-cases (key e == k)) [
      | inl hit ↦ rw hit (
          select-noted (enter ht e) k (recursive_insert true ht.root e).2 e
            (ground (arith, get-put ht.hosts (key e) (recursive_insert true ht.root e).2 k))
            entered.there)
      | inr miss ↦ rw miss (elim (select_cases ht i k) [
        | inl (h, s) ↦
            select-absent (enter ht e) k
              (ground (arith, get-put ht.hosts (key e) (recursive_insert true ht.root e).2 k))
            ∙ sym s
        | inr (p, x, h, there, same, s) ↦
            select-noted (enter ht e) k p x
              (ground (arith, get-put ht.hosts (key e) (recursive_insert true ht.root e).2 k))
              (stays p x there)
            ∙ sym s
      ])
    ]

pub get-enter :
    (ht : HostTree) (e : HostEntry) (k : ℕ) → key e ≢ k → get (enter ht e).hosts k ≡ get ht.hosts k
unfolding enter
get-enter ht e k h =
    get-put ht.hosts (key e) (recursive_insert true ht.root e).2 k
    ∙ ground (arith, ==_ne (key e) k h)

module _ (ht : HostTree) (i : IsLinked ht) (k : ℕ) (p : List Turn) (e : HostEntry)
    (noted : get ht.hosts k ≡ some p) (there : host_at ht.root p ≡ some e) where
  abbrev pub rest : HostTree
  rest = record ht { root = take_off ht.root p e.weight; hosts = delete ht.hosts k }

  removed : IsRemoval ht.root e rest.root p
  removed = take_off-IsRemoval ht.root p e i.weighed there

  pub own_key : key e ≡ k
  own_key = ground (arith, i.noted p e there, i.standing k p noted)

  not_own :
      (q : List Turn) (x : HostEntry)
      → host_at ht.root q ≡ some x
      → host_at rest.root q ≡ some x
      → (host_at ht.root q ≡ some x) × (k ≢ key x)
  not_own q x was h = (
    was,
    λ clash.
        let same_place : q ≡ p = ground (arith, noted, i.noted q x was, ap (get ht.hosts) clash) in
        ground (arith, removed.gone, ap (host_at rest.root) same_place),
  )

  stays_there :
      (q : List Turn) (x : HostEntry)
      → host_at ht.root q ≡ some x
      → k ≢ key x
      → host_at rest.root q ≡ some x
  stays_there q x h other = elim (removed.others q) [
    | inl same ↦ ground (arith, there, own_key, ap (host_at ht.root) same)
    | inr same ↦ same ∙ h
  ]

  rest_noted :
      (q : List Turn) (x : HostEntry)
      → host_at rest.root q ≡ some x
      → (host_at ht.root q ≡ some x) × (k ≢ key x)
  rest_noted q x h = elim (removed.others q) [
    | inl same ↦ ground (arith, removed.gone, ap (host_at rest.root) same)
    | inr same ↦ not_own q x (sym same ∙ h) h
  ]

  pub take_out-runs : take_out ht k p ≡ ok (rest, e)
  unfolding take_out
  take_out-runs = rw (host_at-entry ht.root p e there) refl

  pub rest-IsLinked : IsLinked rest
  rest-IsLinked = record {
    weighed = removed.sound;
    balanced = (take_off-IsBalanced ht.root p e.weight i.balanced).0;
    noted = λ q x h.
        let (was, other) = rest_noted q x h in
        ground (arith, get-delete ht.hosts k (key x), i.noted q x was);
    standing = λ j q h.
        let (other, old) = delete_inv ht.hosts k j q h in
        let (x, stood, same) = i.standing j q old in
        (x, stays_there q x stood (λ clash. other (clash ∙ same)), same);
    positive = λ q x h. i.positive q x (rest_noted q x h).0;
  }

  pub select-rest : (j : ℕ) → select rest j ≡ (if k == j then ok none else select ht j)
  select-rest j = elim (Bool-cases (k == j)) [
    | inl hit ↦ rw hit (select-absent rest j (ground (arith, get-delete ht.hosts k j)))
    | inr miss ↦ rw miss (elim (select_cases ht i j) [
      | inl (h, s) ↦ select-absent rest j (ground (arith, get-delete ht.hosts k j)) ∙ sym s
      | inr (q, x, h, stood, same, s) ↦
          select-noted rest j q x (ground (arith, get-delete ht.hosts k j))
            (stays_there q x stood (λ clash. ground (arith, clash, same, miss)))
          ∙ sym s
    ])
  ]
