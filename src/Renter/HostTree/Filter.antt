-- ===== src/Renter/HostTree/Filter.antt =====
-- modules/renter/hostdb/hosttree/addressfilter.go: the subnets of hosts that were added to a filter. A
-- subnet is a number in place of a text. The resolver, and net.ParseCIDR of an address with a range, are
-- parameters; none is their error.
use hyperspace.Common.{
  ℕ, ◌≡◌, ◌⊎◌, inl, inr, ap, refl, ◌∙◌, List, [], ◌∷◌, Bool, true, false, ◌||◌, Option, none, some,
  arith, ltb, ◌==◌, if◌then◌else◌, length, contains, Option-cases,
}

-- An IP address: whether To4 gives one, its length in bytes, and the bytes.
pub record Ip : Type 0 where
  pub is_ipv4 : Bool
  pub size : ℕ
  pub bytes : List ℕ

abbrev pub ipv4_filter_range : ℕ
ipv4_filter_range = 24

abbrev pub ipv6_filter_range : ℕ
ipv6_filter_range = 54

abbrev pub filter_range : Ip → ℕ
filter_range ip = if ip.is_ipv4 then ipv4_filter_range else ipv6_filter_range

abbrev pub with_subnet : Option ℕ → List ℕ → List ℕ
with_subnet none filter = filter
with_subnet (some subnet) filter = subnet ∷ filter

abbrev pub has_subnet : Option ℕ → List ℕ → Bool
has_subnet none filter = false
has_subnet (some subnet) filter = contains filter subnet

abbrev pub two_of_a_size : List Ip → Bool
two_of_a_size (a ∷ b ∷ []) = a.size == b.size
two_of_a_size _ = false

module _ (lookup_ip : ℕ → Option (List Ip)) (parse_cidr : Ip → ℕ → Option ℕ) where
  unfoldable pub add_subnets : List ℕ → List Ip → List ℕ
  add_subnets filter [] = filter
  add_subnets filter (ip ∷ ips) =
      add_subnets (with_subnet (parse_cidr ip (filter_range ip)) filter) ips

  -- Filter.Add
  unfoldable pub filter_add : List ℕ → ℕ → List ℕ
  unfolding add_subnets
  filter_add filter host = elim (lookup_ip host) [
    | none ↦ filter
    | some ips ↦ add_subnets filter ips
  ]

  unfoldable pub any_subnet : List ℕ → List Ip → Bool
  any_subnet filter [] = false
  any_subnet filter (ip ∷ ips) =
      has_subnet (parse_cidr ip (filter_range ip)) filter || any_subnet filter ips

  unfoldable pub filtered : List ℕ → ℕ → Bool
  unfolding any_subnet
  filtered filter host = elim (lookup_ip host) [
    | none ↦ true
    | some ips ↦ ltb 2 (length ips) || (two_of_a_size ips || any_subnet filter ips)
  ]

  -- The host has an address in the subnet.
  abbrev pub In : ℕ → List Ip → Type 0
  In s [] = ⊥
  In s (ip ∷ ips) = (parse_cidr ip (filter_range ip) ≡ some s) ⊎ In s ips

  abbrev pub InSubnet : ℕ → ℕ → Type 0
  InSubnet s host = (ips : List Ip) × (lookup_ip host ≡ some ips) × In s ips

  add_subnets-keeps :
      (filter : List ℕ) (ips : List Ip) (s : ℕ)
      → contains filter s ≡ true
      → contains (add_subnets filter ips) s ≡ true
  unfolding add_subnets
  add_subnets-keeps filter [] s h = h
  add_subnets-keeps filter (ip ∷ ips) s h =
      add_subnets-keeps (with_subnet (parse_cidr ip (filter_range ip)) filter) ips s
        (elim (Option-cases (parse_cidr ip (filter_range ip))) [
          | inl n ↦ rw n h
          | inr (v, q) ↦ rw q (ground arith)
        ])

  add_subnets-In :
      (filter : List ℕ) (ips : List Ip) (s : ℕ)
      → In s ips
      → contains (add_subnets filter ips) s ≡ true
  unfolding add_subnets
  add_subnets-In filter [] s h = elim h [ ]
  add_subnets-In filter (ip ∷ ips) s (inl q) =
      add_subnets-keeps (with_subnet (parse_cidr ip (filter_range ip)) filter) ips s
        (rw q (ground arith))
  add_subnets-In filter (ip ∷ ips) s (inr h) =
      add_subnets-In (with_subnet (parse_cidr ip (filter_range ip)) filter) ips s h

  any_subnet-In :
      (filter : List ℕ) (ips : List Ip) (s : ℕ)
      → any_subnet filter ips ≡ false
      → In s ips
      → contains filter s ≡ false
  unfolding any_subnet
  any_subnet-In filter [] s h i = elim i [ ]
  any_subnet-In filter (ip ∷ ips) s h (inl q) = ground (arith, ap (λ o. has_subnet o filter) q)
  any_subnet-In filter (ip ∷ ips) s h (inr i) = any_subnet-In filter ips s (ground arith) i

  added :
      (filter : List ℕ) (host : ℕ) (ips : List Ip)
      → lookup_ip host ≡ some ips
      → filter_add filter host ≡ add_subnets filter ips
  unfolding filter_add
  added filter host ips q = rw (q, filter_add) refl

  pub filter_add-keeps :
      (filter : List ℕ) (host s : ℕ)
      → contains filter s ≡ true
      → contains (filter_add filter host) s ≡ true
  unfolding filter_add
  filter_add-keeps filter host s h = elim (Option-cases (lookup_ip host)) [
    | inl n ↦ ap (λ l. contains l s) (rw (n, filter_add) refl) ∙ h
    | inr (ips, q) ↦
        ap (λ l. contains l s) (added filter host ips q) ∙ add_subnets-keeps filter ips s h
  ]

  pub filter_add-InSubnet :
      (filter : List ℕ) (host s : ℕ) → InSubnet s host → contains (filter_add filter host) s ≡ true
  unfolding filter_add
  filter_add-InSubnet filter host s (ips, q, i) =
      ap (λ l. contains l s) (added filter host ips q) ∙ add_subnets-In filter ips s i

  pub filtered-InSubnet :
      (filter : List ℕ) (host s : ℕ)
      → filtered filter host ≡ false
      → InSubnet s host
      → contains filter s ≡ false
  unfolding filtered
  filtered-InSubnet filter host s h (ips, q, i) = any_subnet-In filter ips s (ground (arith, q)) i
