-- ===== src/Renter/HostTree/Refinement.antt =====
-- What a host tree promises: a map from keys to hosts with their weights
-- (modules/renter/hostdb/hosttree/hosttree.go).
use hyperspace.Common.{
  inl, inr, List, [], ◌∷◌, ℕ, ◌<◌, ◌≡◌, refl, sym, ap, ◌∙◌, Bool, true, false, Option, none, some,
  arith, if◌then◌else◌, ◌==◌, ok, err, is_some, ok_injective,
}
use hyperspace.Common.Result.{Result}
use hyperspace.Renter.HostTree.{
  HostDbEntry, HostEntry, Turn, left, right, new_root, Error, host_exists, no_such_host, HostTree,
  get, enter, weighed, insert, remove, modify, select, new,
}
use hyperspace.Renter.HostTree.Weights.{host_at}
use hyperspace.Renter.HostTree.Hosts.{
  IsLinked, select-absent, get-delete, select_cases, enter-IsLinked, select-enter, rest,
  take_out-runs, rest-IsLinked, select-rest,
}

abbrev pub Hosts : Type 0
Hosts = ℕ → Option HostEntry

abbrev pub bind : Hosts → ℕ → Option HostEntry → Hosts
bind m k e j = if k == j then e else m j

-- The abstract operations, for the weights of a function.
module _ (m : Hosts) (wf : HostDbEntry → ℕ) where
  abbrev pub with_host : HostDbEntry → Hosts
  with_host h = bind m h.public_key (some (record { host = h; weight = wf h }))

  abbrev pub insert_host : HostDbEntry → Result Error Hosts
  insert_host h = if is_some (m h.public_key) then err host_exists else ok (with_host h)

  abbrev pub modify_host : HostDbEntry → Result Error Hosts
  modify_host h = if is_some (m h.public_key) then ok (with_host h) else err no_such_host

abbrev pub remove_host : Hosts → ℕ → Result Error Hosts
remove_host m k = if is_some (m k) then ok (bind m k none) else err no_such_host

pub record Represents (ht : HostTree) (m : Hosts) (wf : HostDbEntry → ℕ) : Type 0 where
  pub linked : IsLinked ht
  pub selected : (k : ℕ) → select ht k ≡ ok (m k)
  pub weighs : ht.weight_fn ≡ wf

-- The operation fails with the error of the abstract one, or its result represents that of the abstract
-- one.
abbrev pub Refines : Result Error HostTree → Result Error Hosts → (HostDbEntry → ℕ) → Type 0
Refines done (err e) wf = done ≡ err e
Refines done (ok m) wf = (ht : HostTree) × (done ≡ ok ht) × Represents ht m wf

ok-if :
    (b : Bool) (x y : Option HostEntry)
    → Path (Result Error (Option HostEntry)) (if b then ok x else ok y) (ok (if b then x else y))
ok-if true x y = refl
ok-if false x y = refl

module _ (ht : HostTree) (m : Hosts) (r : Represents ht m ht.weight_fn) where
  selects_none : (k : ℕ) → select ht k ≡ ok none → m k ≡ none
  selects_none k s = ok_injective (sym (r.selected k) ∙ s)

  selects_some : (k : ℕ) (e : HostEntry) → select ht k ≡ ok (some e) → m k ≡ some e
  selects_some k e s = ok_injective (sym (r.selected k) ∙ s)

  pub enter-Represents :
      (h : HostDbEntry)
      → get ht.hosts h.public_key ≡ none
      → 0 < ht.weight_fn h
      → Represents (enter ht (weighed ht h)) (with_host m ht.weight_fn h) ht.weight_fn
  unfolding enter
  enter-Represents h fresh heavy = record {
    linked = enter-IsLinked ht r.linked (weighed ht h) fresh heavy;
    selected = λ k.
        select-enter ht r.linked (weighed ht h) fresh heavy k
        ∙ ap (λ s. if h.public_key == k then ok (some (weighed ht h)) else s) (r.selected k)
        ∙ ok-if (h.public_key == k) (some (weighed ht h)) (m k);
    weighs = refl;
  }

  insert-Refines :
      (h : HostDbEntry)
      → 0 < ht.weight_fn h
      → Refines (insert ht h) (insert_host m ht.weight_fn h) ht.weight_fn
  unfolding insert
  insert-Refines h heavy = elim (select_cases ht r.linked h.public_key) [
    | inl (fresh, s) ↦
        rw (selects_none h.public_key s)
          (enter ht (weighed ht h), rw fresh refl, enter-Represents h fresh heavy)
    | inr (p, e, noted, there, same, s) ↦ rw (selects_some h.public_key e s) (rw noted refl)
  ]

  module _ (k : ℕ) (p : List Turn) (e : HostEntry) (noted : get ht.hosts k ≡ some p)
      (there : host_at ht.root p ≡ some e) where
    pub rest-Represents :
        Represents (rest ht r.linked k p e noted there) (bind m k none) ht.weight_fn
    rest-Represents = record {
      linked = rest-IsLinked ht r.linked k p e noted there;
      selected = λ j.
          select-rest ht r.linked k p e noted there j
          ∙ ap (λ s. if k == j then ok none else s) (r.selected j)
          ∙ ok-if (k == j) none (m j);
      weighs = refl;
    }

  remove-Refines : (k : ℕ) → Refines (remove ht k) (remove_host m k) ht.weight_fn
  unfolding remove
  remove-Refines k = elim (select_cases ht r.linked k) [
    | inl (fresh, s) ↦ rw (selects_none k s) (rw fresh refl)
    | inr (p, e, noted, there, same, s) ↦ rw (selects_some k e s) (
      rest ht r.linked k p e noted there,
      rw noted (rw (take_out-runs ht r.linked k p e noted there) refl),
      rest-Represents k p e noted there,
    )
  ]

twice :
    (m : Hosts) (wf : HostDbEntry → ℕ) (h : HostDbEntry) (j : ℕ)
    → with_host (bind m h.public_key none) wf h j ≡ with_host m wf h j
twice m wf h j = ground arith

modify-Refines :
    (ht : HostTree) (m : Hosts)
    → Represents ht m ht.weight_fn
    → (h : HostDbEntry) → 0 < ht.weight_fn h
    → Refines (modify ht h) (modify_host m ht.weight_fn h) ht.weight_fn
unfolding modify
modify-Refines ht m r h heavy = elim (select_cases ht r.linked h.public_key) [
  | inl (fresh, s) ↦ rw (selects_none ht m r h.public_key s) (rw fresh refl)
  | inr (p, e, noted, there, same, s) ↦
      let k = h.public_key in
      let ht' = rest ht r.linked k p e noted there in
      let done =
        enter-Represents ht' (bind m k none) (rest-Represents ht m r k p e noted there) h
          (ground (arith, get-delete ht.hosts k k)) heavy in
      rw (selects_some ht m r h.public_key e s) (
        enter ht' (weighed ht h),
        rw noted (rw (take_out-runs ht r.linked k p e noted there) refl),
        record {
          linked = done.linked;
          selected = λ j. done.selected j ∙ ap ok (twice m ht.weight_fn h j);
          weighs = done.weighs;
        },
      )
]

-- Where a host tree represents a map, Insert and Modify of a host with a weight above zero and Remove do
-- what the operations of the map do: they fail with the same error or give a tree that represents the
-- changed map, and Select finds what the map has.
pub host_tree-Refines :
    (ht : HostTree) (m : Hosts) (h : HostDbEntry) (k : ℕ)
    → Represents ht m ht.weight_fn
    → 0 < ht.weight_fn h
    → (select ht k ≡ ok (m k))
      × Refines (insert ht h) (insert_host m ht.weight_fn h) ht.weight_fn
      × Refines (modify ht h) (modify_host m ht.weight_fn h) ht.weight_fn
      × Refines (remove ht k) (remove_host m k) ht.weight_fn
host_tree-Refines ht m h k r heavy = (
  r.selected k,
  insert-Refines ht m r h heavy,
  modify-Refines ht m r h heavy,
  remove-Refines ht m r k,
)

new_root-empty : (p : List Turn) → host_at new_root p ≡ none
new_root-empty [] = refl
new_root-empty (left ∷ p) = refl
new_root-empty (right ∷ p) = refl

-- A new tree has no hosts.
pub new-Represents : (wf : HostDbEntry → ℕ) → Represents (new wf) (λ k. none) wf
new-Represents wf = record {
  linked = record {
    weighed = (tt, tt, omega arith, refl);
    balanced = (tt, tt, omega arith, omega arith, omega arith);
    noted = λ p e h. ground (arith, h, new_root-empty p);
    standing = λ k p h. ground arith;
    positive = λ p e h. ground (arith, h, new_root-empty p);
  };
  selected = λ k. select-absent (new wf) k refl;
  weighs = refl;
}
