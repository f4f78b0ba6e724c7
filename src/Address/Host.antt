-- ===== src/Address/Host.antt =====
-- What IpPrefix::parse (src/domain/address.cpp) accepts: a length within the family's, and no bit set
-- behind it.
use upfpolicyengine.Common.{
  ℕ, zero, suc, ◌+◌, ◌-◌, ◌%◌, ◌≤◌, ◌<◌, ◌≡◌, refl, subst, inl, inr, false, not, ◌&&◌, ◌||◌, Option,
  none, some, List, arith, ltb, nat_eq, nat_eq_iff, Bool-cases,
}
use upfpolicyengine.Common.Text.{Text, is_empty}
use upfpolicyengine.Types.{Result, success, failure, u8_mod}
use upfpolicyengine.Address.Defs.{AddressFamily, ipv4, ipv6, Inet, IpAddress, IpPrefix}
use upfpolicyengine.Address.Parse.{
  c_str, parse_address, split_slash, strtol, bit_at, has_host_bits, maximum_length, parse_length,
  parse_prefix,
}

-- No host bit among those looked at.
no_host_bits :
    (bytes : List ℕ) (bit rounds : ℕ)
    → has_host_bits bytes bit rounds ≡ false
    → (i : ℕ) → bit ≤ i
    → i < bit + rounds
    → bit_at bytes i ≡ false
unfolding has_host_bits
no_host_bits bytes bit zero h i le lt = absurd (omega arith)
no_host_bits bytes bit (suc rounds) h i le lt = elim (Bool-cases (nat_eq i bit)) [
  | inl e ↦ rw ((nat_eq_iff i bit).0 e) (ground (arith, h))
  | inr e ↦ no_host_bits bytes (suc bit) rounds (ground (arith, h)) i (ground arith) (omega arith)
]

-- A prefix in canonical form.
pub record IsCanonical (p : IpPrefix) : Type 0 where
  pub within : p.length ≤ maximum_length p.network.family
  pub cleared :
      (i : ℕ)
      → p.length ≤ i
      → i < maximum_length p.network.family
      → bit_at p.network.bytes i ≡ false

maximum_bound : (f : AddressFamily) → maximum_length f ≤ 128
maximum_bound ipv4 = omega arith
maximum_bound ipv6 = omega arith

abbrev WhenSuccess : Result IpPrefix → Type 0
WhenSuccess (success p) = IsCanonical p
WhenSuccess (failure e) = Unit

parse_length-IsCanonical : (network : IpAddress) (s : Text) → WhenSuccess (parse_length network s)
unfolding parse_length
parse_length-IsCanonical network s =
    let number = strtol (c_str s) in
    let maximum = maximum_length network.family in
    let bound = maximum_bound network.family in
    elim (Bool-cases (
      not (is_empty number.end)
      || number.negative && not (nat_eq number.magnitude 0)
      || ltb maximum number.magnitude)) [
        | inl bad ↦ rw (bad, parse_length) tt
        | inr good ↦
            let within : number.magnitude ≤ maximum = ground arith in
            let small : number.magnitude % u8_mod ≡ number.magnitude = omega arith in
            elim (Bool-cases
              (has_host_bits network.bytes number.magnitude (maximum - number.magnitude))) [
                | inl set ↦ rw (good, set, parse_length) tt
                | inr clear ↦
                    rw (good, clear, parse_length, small)
                      (record {
                        within = within;
                        cleared = λ i le lt.
                            no_host_bits network.bytes number.magnitude (maximum - number.magnitude)
                              clear i le (omega arith);
                      })
              ]
      ]

parse_by :
    (inet : Inet) (s : Text) (o : Option (Text × Text))
    → split_slash s ≡ o
    → WhenSuccess (parse_prefix inet s)
unfolding parse_prefix
parse_by inet s none e = rw (e, parse_prefix) tt
parse_by inet s (some (before, behind)) e = by_address _ refl
  where
    by_address :
        (r : Result IpAddress) → parse_address inet before ≡ r → WhenSuccess (parse_prefix inet s)
    by_address (failure error) e' = rw (e, e', parse_prefix) tt
    by_address (success network) e' =
        rw (e, e', parse_prefix) (parse_length-IsCanonical network behind)

-- Whatever the C library reads as an address: a prefix that is parsed has a length of at most the
-- bits of its family, and each bit behind the length is zero.
pub parse_prefix-IsCanonical :
    (inet : Inet) (s : Text) (p : IpPrefix) → parse_prefix inet s ≡ success p → IsCanonical p
parse_prefix-IsCanonical inet s p e = subst WhenSuccess e (parse_by inet s _ refl)
