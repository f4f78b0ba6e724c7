-- ===== src/Address/Defs.antt =====
-- IpAddress, IpPrefix::contains and PortRange. The C library's `inet_pton` and `inet_ntop`
-- (<arpa/inet.h>) are not part of the program: they are the fields of a record that is passed to
-- what calls them.
use Prim.Native.Nat.{bit_and}
use upfpolicyengine.Common.{
  ℕ, ◌-◌, ◌*◌, ◌/◌, ◌%◌, ◌^◌, Bool, true, false, not, ◌&&◌, Option, none, some, List, [], ◌∷◌, leb,
  nat_eq, get_or, if◌then◌else◌, zero, suc,
}
use upfpolicyengine.Common.Text.{Text, text}
use upfpolicyengine.Types.{u8_mod}

pub data AddressFamily : Type 0 where
  ipv4 ipv6 : AddressFamily

abbrev pub family_eq : AddressFamily → AddressFamily → Bool
family_eq ipv4 ipv4 = true
family_eq ipv6 ipv6 = true
family_eq _ _ = false

-- The presentation of addresses by the C library. `pton` is none where the C function does not
-- return 1, and otherwise the bytes that it writes, 4 or 16 by the family; `ntop` is none where
-- the C function returns a null pointer.
pub record Inet : Type 0 where
  pub pton : AddressFamily → Text → Option (List ℕ)
  pub ntop : AddressFamily → List ℕ → Option Text

-- `bytes` is the array of 16 bytes.
pub record IpAddress : Type 0 where
  pub family : AddressFamily
  pub bytes : List ℕ

abbrev pub zeros : ℕ → List ℕ
zeros zero = []
zeros (suc n) = 0 ∷ zeros n

-- The default constructor.
abbrev pub default_address : IpAddress
default_address = record { family = ipv4; bytes = zeros 16 }

-- `IpAddress::toString`
unfoldable pub to_string : Inet → IpAddress → Text
to_string inet address = elim (inet.ntop address.family address.bytes) [
  | none ↦ text ""
  | some buffer ↦ buffer
]

-- `std::memcmp(left, right, n) == 0`
unfoldable pub memory_eq : ℕ → List ℕ → List ℕ → Bool
memory_eq zero left right = true
memory_eq (suc n) left right = memory_eq n left right && nat_eq (get_or left n 0) (get_or right n 0)

-- `IpAddress::operator==`
unfoldable pub address_eq : IpAddress → IpAddress → Bool
address_eq a b =
    if not (family_eq a.family b.family) then false else memory_eq (size a.family) a.bytes b.bytes
  where
    size : AddressFamily → ℕ
    size ipv4 = 4
    size ipv6 = 16

pub record IpPrefix : Type 0 where
  pub network : IpAddress
  pub length : ℕ

-- The default constructor.
abbrev pub default_prefix : IpPrefix
default_prefix = record { network = default_address; length = 0 }

-- `static_cast<std::uint8_t>(0xFFU << (8U - rest))`
unfoldable pub leading_mask : ℕ → ℕ
leading_mask rest = 0xff * 2 ^ (8 - rest) % u8_mod

-- `IpPrefix::contains`
unfoldable pub contains : IpPrefix → IpAddress → Bool
contains prefix address =
    let left = prefix.network.bytes in
    let right = address.bytes in
    let whole = prefix.length / 8 in
    let rest = prefix.length % 8 in
    let mask = leading_mask rest in
    if not (family_eq prefix.network.family address.family)
    then false
    else if not (memory_eq whole left right)
    then false
    else if nat_eq rest 0
    then true
    else nat_eq (bit_and (get_or left whole 0) mask) (bit_and (get_or right whole 0) mask)

pub record PortRange : Type 0 where
  pub first : ℕ
  pub last : ℕ

-- `PortRange::valid`
abbrev pub is_valid_range : PortRange → Bool
is_valid_range r = leb r.first r.last

-- `PortRange::contains`
unfoldable pub contains_port : PortRange → ℕ → Bool
contains_port r port = is_valid_range r && leb r.first port && leb port r.last
