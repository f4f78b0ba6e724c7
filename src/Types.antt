-- ===== src/Types.antt =====
-- include/upf/domain/types.hpp: results, checked arithmetic, rule identifiers, enumerations and
-- capacity limits. `Optional<T>` is the library's `Option`.
pub mod Arithmetic
use upfpolicyengine.Common.{
  ℕ, ◌+◌, ◌*◌, ◌-◌, ◌/◌, ◌%◌, ◌^◌, ◌<◌, ◌≡◌, refl, ◌↔◌, Bool, true, false, not, ◌&&◌, Option, none,
  some, arith, ltb, nat_eq, nat_eq_iff, Eq, if◌then◌else◌, ◌||◌,
}
use upfpolicyengine.Common.Text.{Text}

-- `Result<T>`; `Result<void>` is `Result (Unit {0})`.
pub data Result {ℓ} (A : Type ℓ) : Type ℓ where
  success : A → Result A
  failure : Text → Result A

-- `r.ok()`
abbrev pub is_ok {ℓ} : {A : Type ℓ} → Result A → Bool
is_ok (success a) = true
is_ok (failure e) = false

-- `r.value()`; `none` is: `std::logic_error` is thrown.
abbrev pub result_value {ℓ} : {A : Type ℓ} → Result A → Option A
result_value (success a) = some a
result_value (failure e) = none

abbrev pub u8_mod : ℕ
u8_mod = 2 ^ 8

abbrev pub u32_mod : ℕ
u32_mod = 2 ^ 32

-- `std::uint64_t`, and `std::size_t` on the platforms of the build.
abbrev pub u64_mod : ℕ
u64_mod = 2 ^ 64

abbrev pub u64_max : ℕ
u64_max = u64_mod - 1

-- `a + b` at 64 bits.
unfoldable pub add_u64 : ℕ → ℕ → ℕ
add_u64 a b = (a + b) % u64_mod

-- The new value of the out parameter, or `none` where the call returns false.
unfoldable pub checked_add : ℕ → ℕ → Option ℕ
checked_add a b = if ltb (u64_max - a) b then none else some ((a + b) % u64_mod)

unfoldable pub checked_multiply : ℕ → ℕ → Option ℕ
checked_multiply a b =
    if not (nat_eq a 0) && ltb (u64_max / a) b then none else some ((a * b) % u64_mod)

-- `if (counter != max) ++counter`
unfoldable pub saturating_increment : ℕ → ℕ
saturating_increment n = if nat_eq n u64_max then n else (n + 1) % u64_mod

-- `PdrId`, `FarId`, `QerId` and `UrrId` are all this type.
pub record RuleId : Type 0 where
  pub value : ℕ

-- `RuleId::valid`
abbrev pub is_valid_id : RuleId → Bool
is_valid_id id = not (nat_eq id.value 0)

pub data Interface : Type 0 where
  n3 n6 : Interface

pub data TransportProtocol : Type 0 where
  tcp udp icmp icmpv6 : TransportProtocol

-- `open` is a word of the language.
pub data GateStatus : Type 0 where
  opened closed : GateStatus

pub data FarAction : Type 0 where
  forward drop : FarAction

pub data TunnelOperation : Type 0 where
  tunnel_none add remove : TunnelOperation

pub data AdapterOutcome : Type 0 where
  immediate_success delayed_success transient_failure permanent_failure : AdapterOutcome

pub data ConvergenceStatus : Type 0 where
  empty converged divergent : ConvergenceStatus

pub record CapacityLimits : Type 0 where
  pub control_queue : ℕ
  pub packet_queue : ℕ
  pub reconciliation_queue : ℕ
  pub reports : ℕ
  pub results : ℕ
  pub events : ℕ
  pub sink_packets : ℕ
  pub sessions : ℕ
  pub rules_per_type : ℕ

-- The constructor with its three arguments.
abbrev pub capacity_limits : ℕ → ℕ → ℕ → CapacityLimits
capacity_limits control packet reconciliation = record {
  control_queue = control;
  packet_queue = packet;
  reconciliation_queue = reconciliation;
  reports = 1024;
  results = 2048;
  events = 8192;
  sink_packets = 2048;
  sessions = 16;
  rules_per_type = 256;
}

-- The constructor's default arguments.
abbrev pub default_limits : CapacityLimits
default_limits = capacity_limits 128 1024 128

-- `==` on identifiers and enumerations.
abbrev pub id_eq : RuleId → RuleId → Bool
id_eq a b = nat_eq a.value b.value

pub id_eq_iff : (a b : RuleId) → (id_eq a b ≡ true) ↔ (a ≡ b)
id_eq_iff a b = ground arith

instance abbrev pub RuleId_Eq : Eq RuleId
RuleId_Eq = record { same = id_eq; same_iff = id_eq_iff }

abbrev pub interface_eq : Interface → Interface → Bool
interface_eq n3 n3 = true
interface_eq n6 n6 = true
interface_eq _ _ = false

pub interface_eq_iff : (a b : Interface) → (interface_eq a b ≡ true) ↔ (a ≡ b)
interface_eq_iff a b = ground arith

instance abbrev pub Interface_Eq : Eq Interface
Interface_Eq = record { same = interface_eq; same_iff = interface_eq_iff }

abbrev pub protocol_eq : TransportProtocol → TransportProtocol → Bool
protocol_eq tcp tcp = true
protocol_eq udp udp = true
protocol_eq icmp icmp = true
protocol_eq icmpv6 icmpv6 = true
protocol_eq _ _ = false

pub protocol_eq_iff : (a b : TransportProtocol) → (protocol_eq a b ≡ true) ↔ (a ≡ b)
protocol_eq_iff a b = ground arith

instance abbrev pub TransportProtocol_Eq : Eq TransportProtocol
TransportProtocol_Eq = record { same = protocol_eq; same_iff = protocol_eq_iff }

abbrev pub is_drop : FarAction → Bool
is_drop drop = true
is_drop forward = false

abbrev pub is_closed : GateStatus → Bool
is_closed closed = true
is_closed opened = false

abbrev pub is_tunnel_none : TunnelOperation → Bool
is_tunnel_none tunnel_none = true
is_tunnel_none _ = false

abbrev pub is_add : TunnelOperation → Bool
is_add add = true
is_add _ = false

abbrev pub is_remove : TunnelOperation → Bool
is_remove remove = true
is_remove _ = false

-- Running the steps of a function that returns a result: the first failure is returned.
infixl 5 ◌>>=◌ ◌>>◌
abbrev pub ◌>>=◌ {ℓ κ} : {A : Type ℓ} {B : Type κ} → Result A → (A → Result B) → Result B
success a >>= f = f a
failure e >>= f = failure e

abbrev pub ◌>>◌ {ℓ} : {B : Type ℓ} → Result (Unit {0}) → Result B → Result B
m >> k = m >>= λ _. k

-- `if (refused) return failure(error);`
abbrev pub refuse : Bool → Text → Result (Unit {0})
refuse true error = failure error
refuse false error = success tt

-- Every step of a sequence that succeeds has succeeded.
pub >>-success_iff :
    (m k : Result (Unit {0})) → ((m >> k) ≡ success tt) ↔ ((m ≡ success tt) × (k ≡ success tt))
>>-success_iff (success tt) k = (λ h. (refl, h), λ h. h.1)
>>-success_iff (failure e) k = (λ h. cc, λ h. cc)

pub refuse-success_iff : (b : Bool) (e : Text) → (refuse b e ≡ success tt) ↔ (b ≡ false)
refuse-success_iff true e = (λ h. cc, λ h. cc)
refuse-success_iff false e = (λ h. refl, λ h. refl)
