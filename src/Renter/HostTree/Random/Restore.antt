-- ===== src/Renter/HostTree/Random/Restore.antt =====
-- Hosts that are set aside and come back (SelectRandom in modules/renter/hostdb/hosttree/hosttree.go).
use hyperspace.Common.{
  ℕ, ◌<◌, ◌≡◌, ◌≢◌, inl, inr, refl, sym, ap, ◌∙◌, List, [], ◌∷◌, ◌++◌, Option, none, some, arith,
  if◌then◌else◌, Bool-cases, ◌==◌, ==_iff, ==_ne, ok, All, All-mono, All-append, All-both,
}
use hyperspace.Common.Result.{Result}
use hyperspace.Renter.HostTree.{HostEntry, key, Turn, Error, HostTree, get, enter, select}
use hyperspace.Renter.HostTree.Weights.{host_at}
use hyperspace.Renter.HostTree.Hosts.{
  IsLinked, enter-IsLinked, select-enter, rest, select-rest, own_key, get-delete, select-noted,
  get-enter,
}
use hyperspace.Renter.HostTree.Random.{put_back}

-- R holds of each item and each that follows.
abbrev pub AllPairs {ℓ κ} : {A : Type ℓ} → (A → A → Type κ) → List A → Type κ
AllPairs R [] = Unit
AllPairs R (x ∷ xs) = All (R x) xs × AllPairs R xs

pub AllPairs-snoc {ℓ κ} :
    {A : Type ℓ} (R : A → A → Type κ) (xs : List A) (y : A)
    → AllPairs R xs
    → All (λ x. R x y) xs
    → AllPairs R (xs ++ (y ∷ []))
AllPairs-snoc R [] y h k = (tt, tt)
AllPairs-snoc R (x ∷ xs) y h k =
    (All-append (R x) xs (y ∷ []) h.0 (k.0, tt), AllPairs-snoc R xs y h.1 k.1)

abbrev pub search_key : List HostEntry → ℕ → Option HostEntry
search_key [] k = none
search_key (e ∷ es) k = if key e == k then some e else search_key es k

abbrev pub or_select : HostTree → ℕ → Option HostEntry → Result Error (Option HostEntry)
or_select ht k none = select ht k
or_select ht k (some e) = ok (some e)

abbrev pub Gone : HostTree → HostEntry → Type 0
Gone ht e = get ht.hosts (key e) ≡ none

-- The hosts of the first tree are those of the second and those set aside.
pub record IsAside (ht0 ht : HostTree) (aside : List HostEntry) : Type 0 where
  pub whole : (k : ℕ) → select ht0 k ≡ or_select ht k (search_key aside k)
  pub gone : All (Gone ht) aside
  pub apart : AllPairs (λ e e'. key e ≢ key e') aside
  pub heavy : All (λ e. 0 < e.weight) aside

pub search_key-none :
    (es : List HostEntry) (k : ℕ) → All (λ e. k ≢ key e) es → search_key es k ≡ none
search_key-none [] k h = refl
search_key-none (e ∷ es) k h = rw (==_ne (key e) k (λ q. h.0 (sym q))) (search_key-none es k h.1)

or-select :
    (ht ht' : HostTree) (k : ℕ) (o : Option HostEntry)
    → select ht k ≡ select ht' k
    → or_select ht k o ≡ or_select ht' k o
or-select ht ht' k none h = h
or-select ht ht' k (some e) h = refl

search_key-snoc :
    (es : List HostEntry) (e : HostEntry) (k : ℕ)
    → search_key (es ++ (e ∷ [])) k
      ≡ (elim (search_key es k) [ some x ↦ some x | none ↦ if key e == k then some e else none ])
search_key-snoc [] e k = refl
search_key-snoc (x ∷ es) e k = elim (Bool-cases (key x == k)) [
  | inl hit ↦ rw hit refl
  | inr miss ↦ rw miss (search_key-snoc es e k)
]

after_enter :
    (ht : HostTree) (e : HostEntry) (es : List HostEntry) (k : ℕ)
    → select (enter ht e) k ≡ (if key e == k then ok (some e) else select ht k)
    → All (λ x. key e ≢ key x) es
    → or_select ht k (search_key (e ∷ es) k) ≡ or_select (enter ht e) k (search_key es k)
after_enter ht e es k s apart = elim (Bool-cases (key e == k)) [
  | inl hit ↦
      let same : key e ≡ k = (==_iff (key e) k).0 hit in
      let none_left = search_key-none es k (All-mono (λ x n q. n (same ∙ q)) es apart) in
      rw hit (rw none_left (sym (s ∙ ap (λ b. if b then ok (some e) else select ht k) hit)))
  | inr miss ↦ rw miss (
      or-select ht (enter ht e) k (search_key es k)
        (sym (s ∙ ap (λ b. if b then ok (some e) else select ht k) miss)))
]

-- What was set aside comes back.
pub put_back-restores :
    (ht0 ht : HostTree) (aside : List HostEntry)
    → IsLinked ht
    → IsAside ht0 ht aside
    → IsLinked (put_back ht aside) × ((k : ℕ) → select (put_back ht aside) k ≡ select ht0 k)
unfolding put_back
put_back-restores ht0 ht [] i a = (i, λ k. sym (a.whole k))
put_back-restores ht0 ht (e ∷ es) i a =
    put_back-restores ht0 (enter ht e) es (enter-IsLinked ht i e a.gone.0 a.heavy.0) (record {
      whole = λ k.
          a.whole k ∙ after_enter ht e es k (select-enter ht i e a.gone.0 a.heavy.0 k) a.apart.0;
      gone =
          All-mono (λ x h. get-enter ht e (key x) h.0 ∙ h.1) es
            (All-both _ _ es a.apart.0 a.gone.1);
      apart = a.apart.1;
      heavy = a.heavy.1;
    })

after_rest :
    (ht ht' : HostTree) (k : ℕ) (e : HostEntry) (o o' : Option HostEntry)
    → o' ≡ (elim o [ some x ↦ some x | none ↦ if key e == k then some e else none ])
    → select ht' k ≡ (if key e == k then ok none else select ht k)
    → (key e ≡ k → select ht k ≡ ok (some e))
    → or_select ht k o ≡ or_select ht' k o'
after_rest ht ht' k e (some x) o' q s h = rw q refl
after_rest ht ht' k e none o' q s h = elim (Bool-cases (key e == k)) [
  | inl hit ↦ rw (q ∙ ap (λ b. if b then some e else none) hit) (h ((==_iff (key e) k).0 hit))
  | inr miss ↦
      rw (q ∙ ap (λ b. if b then some e else none) miss)
        (sym (s ∙ ap (λ b. if b then ok none else select ht k) miss))
]

module _ (ht0 ht : HostTree) (aside : List HostEntry) (i : IsLinked ht) (a : IsAside ht0 ht aside)
    (k : ℕ) (p : List Turn) (e : HostEntry) (noted : get ht.hosts k ≡ some p)
    (there : host_at ht.root p ≡ some e) where
  pub rest-IsAside : IsAside ht0 (rest ht i k p e noted there) (aside ++ (e ∷ []))
  rest-IsAside = record {
    whole = λ j.
        let own = own_key ht i k p e noted there in
        a.whole j
        ∙ after_rest ht (rest ht i k p e noted there) j e (search_key aside j)
            (search_key (aside ++ (e ∷ [])) j) (search_key-snoc aside e j)
            (select-rest ht i k p e noted there j
              ∙ ap (λ b. if b == j then ok none else select ht j) (sym own))
            (λ same. select-noted ht j p e (ap (get ht.hosts) (sym same ∙ own) ∙ noted) there);
    gone =
        All-append (Gone (rest ht i k p e noted there)) aside (e ∷ [])
          (All-mono (λ x h. ground (arith, get-delete ht.hosts k (key x), h)) aside a.gone)
          (ground (arith, get-delete ht.hosts k (key e), own_key ht i k p e noted there), tt);
    apart =
        AllPairs-snoc (λ x y. key x ≢ key y) aside e a.apart
          (All-mono
            (λ x h same.
              ground
                (arith, h, noted, own_key ht i k p e noted there, same, ap (get ht.hosts) same))
            aside a.gone);
    heavy = All-append (λ x. 0 < x.weight) aside (e ∷ []) a.heavy (i.positive p e there, tt);
  }
