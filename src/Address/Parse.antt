-- ===== src/Address/Parse.antt =====
-- IpAddress::parse and IpPrefix::parse, over `inet_pton` and a model of the language's `strtol`.
use Prim.Native.Nat.{bit_and}
use upfpolicyengine.Common.{
  ℕ, zero, suc, ◌+◌, ◌-◌, ◌*◌, ◌/◌, ◌%◌, ◌^◌, min, Bool, true, false, not, ◌&&◌, ◌||◌, Option, none,
  some, List, [], ◌∷◌, ltb, leb, nat_eq, get_or, if◌then◌else◌,
}
use upfpolicyengine.Common.Text.{Text, text, is_empty}
use upfpolicyengine.Types.{Result, success, failure, u8_mod}
use upfpolicyengine.Address.Defs.{AddressFamily, ipv4, ipv6, Inet, IpAddress, IpPrefix, zeros}

-- `s.c_str()` as a C function reads it: up to the first zero byte.
unfoldable pub c_str : Text → Text
c_str [] = []
c_str (c ∷ s) = if nat_eq c 0 then [] else c ∷ c_str s

-- The array after the C function has written its bytes at the front.
abbrev pub overwrite : List ℕ → List ℕ → List ℕ
overwrite [] bytes = bytes
overwrite (w ∷ ws) [] = []
overwrite (w ∷ ws) (b ∷ bytes) = w ∷ overwrite ws bytes

-- `IpAddress::parse`
unfoldable pub parse_address : Inet → Text → Result IpAddress
parse_address inet s = elim (inet.pton ipv4 (c_str s)) [
  | some written ↦ success (record { family = ipv4; bytes = overwrite written (zeros 16) })
  | none ↦ elim (inet.pton ipv6 (c_str s)) [
    | some written ↦ success (record { family = ipv6; bytes = overwrite written (zeros 16) })
    | none ↦ failure (text "invalid IP address")
  ]
]

-- `text.find('/')`, with what stands before the slash and what stands behind it.
unfoldable pub split_slash : Text → Option (Text × Text)
split_slash [] = none
split_slash (c ∷ s) =
    let later = split_slash s in
    if nat_eq c b'/'
    then some ([], s)
    else elim later [ none ↦ none | some (before, behind) ↦ some (c ∷ before, behind) ]

abbrev is_space : ℕ → Bool
is_space c = nat_eq c 32 || leb 9 c && leb c 13

abbrev is_digit : ℕ → Bool
is_digit c = leb b'0' c && leb c b'9'

-- What `std::strtol(s, &end, 10)` returns: the sign, the magnitude, and the text from `end` on.
pub record Strtol : Type 0 where
  pub negative : Bool
  pub magnitude : ℕ
  pub end : Text

unfoldable pub skip_spaces : Text → Text
skip_spaces [] = []
skip_spaces (c ∷ s) = let rest = skip_spaces s in if is_space c then rest else c ∷ s

-- The sign, and the text behind it.
abbrev pub read_sign : Text → Bool × Text
read_sign [] = (false, [])
read_sign (c ∷ s) =
    if nat_eq c b'-' then (true, s) else if nat_eq c b'+' then (false, s) else (false, c ∷ s)

-- The digits from the front: their value after those read, and the text behind them.
unfoldable pub read_digits : ℕ → Text → ℕ × Text
read_digits acc [] = (acc, [])
read_digits acc (c ∷ s) =
    let more = read_digits (acc * 10 + (c - b'0')) s in if is_digit c then more else (acc, c ∷ s)

abbrev starts_with_digit : Text → Bool
starts_with_digit [] = false
starts_with_digit (c ∷ s) = is_digit c

-- With no digit to read, the value is 0 and `end` is the start of the text. A value out of range
-- is clamped to the range of `long`, 64 bits here.
unfoldable pub strtol : Text → Strtol
unfolding skip_spaces read_digits
strtol s =
    let (negative, behind) = read_sign (skip_spaces s) in
    let (value, end) = read_digits 0 behind in
    if starts_with_digit behind
    then record {
      negative = negative;
      magnitude = min value (if negative then 2 ^ 63 else 2 ^ 63 - 1);
      end = end;
    }
    else record { negative = false; magnitude = 0; end = s }

-- `bytes[bit / 8U] & static_cast<std::uint8_t>(0x80U >> (bit % 8U))) != 0U`
unfoldable pub bit_at : List ℕ → ℕ → Bool
bit_at bytes bit = not (nat_eq (bit_and (get_or bytes (bit / 8) 0) (0x80 / 2 ^ (bit % 8))) 0)

-- The loop over the bits from `bit` on, with the rounds that are left: whether one of them is set.
unfoldable pub has_host_bits : List ℕ → ℕ → ℕ → Bool
unfolding bit_at
has_host_bits bytes bit zero = false
has_host_bits bytes bit (suc rounds) =
    let rest = has_host_bits bytes (suc bit) rounds in if bit_at bytes bit then true else rest

-- The number of bits of an address.
abbrev pub maximum_length : AddressFamily → ℕ
maximum_length ipv4 = 32
maximum_length ipv6 = 128

-- `IpPrefix::parse` behind the address: the checks of the length and of the host bits.
unfoldable pub parse_length : IpAddress → Text → Result IpPrefix
unfolding strtol has_host_bits c_str
parse_length network length_text =
    let number = strtol (c_str length_text) in
    let maximum = maximum_length network.family in
    if not (is_empty number.end)
      || number.negative && not (nat_eq number.magnitude 0)
      || ltb maximum number.magnitude
    then failure (text "invalid prefix length")
    else if has_host_bits network.bytes number.magnitude (maximum - number.magnitude)
    then failure (text "prefix contains host bits")
    else success (record { network = network; length = number.magnitude % u8_mod })

-- `IpPrefix::parse`
unfoldable pub parse_prefix : Inet → Text → Result IpPrefix
unfolding split_slash parse_address parse_length
parse_prefix inet s = elim (split_slash s) [
  | none ↦ failure (text "prefix length missing")
  | some (before, behind) ↦ elim (parse_address inet before) [
    | failure error ↦ failure error
    | success network ↦ parse_length network behind
  ]
]
