-- ===== src/Rules.antt =====
-- include/upf/domain/rules.hpp and the lookups of src/domain/validation.cpp.
pub mod Lookup
use upfpolicyengine.Common.{
  ℕ, Bool, true, false, Option, none, some, List, [], ◌∷◌, ◌==◌, if◌then◌else◌,
}
use upfpolicyengine.Common.Text.{Text}
use upfpolicyengine.Types.{
  RuleId, RuleId_Eq, Interface, TransportProtocol, GateStatus, FarAction, TunnelOperation,
}
use upfpolicyengine.Address.{IpPrefix, PortRange}
use upfpolicyengine.Packet.{TunnelMetadata}

pub record Pdr : Type 0 where
  pub id : RuleId
  pub precedence : ℕ
  pub source_interface : Interface
  pub teid : Option ℕ
  pub ue_prefix : IpPrefix
  pub protocol : Option TransportProtocol
  pub local_ports : Option PortRange
  pub remote_ports : Option PortRange
  pub qfi : Option ℕ
  pub far_id : RuleId
  pub qer_id : Option RuleId
  pub urr_id : Option RuleId
  pub generation : ℕ

pub record Far : Type 0 where
  pub id : RuleId
  pub action : FarAction
  pub destination : Option Interface
  pub operation : TunnelOperation
  pub tunnel : Option TunnelMetadata

pub record Qer : Type 0 where
  pub id : RuleId
  pub gate : GateStatus
  pub rate_bits_per_second : ℕ
  pub burst_bytes : ℕ
  pub qfi : Option ℕ
  pub generation : ℕ

pub record Urr : Type 0 where
  pub id : RuleId
  pub volume_threshold_bytes : ℕ
  pub generation : ℕ

pub record RuleSet : Type 0 where
  pub session_id : Text
  pub version : ℕ
  pub pdrs : List Pdr
  pub fars : List Far
  pub qers : List Qer
  pub urrs : List Urr

-- What the templates and the three lookups ask of a rule: its `id`.
pub record HasId {ℓ} (A : Type ℓ) : Type ℓ where
  pub id_of : A → RuleId

instance abbrev pub Pdr_HasId : HasId Pdr
Pdr_HasId = record { id_of = λ r. r.id }

instance abbrev pub Far_HasId : HasId Far
Far_HasId = record { id_of = λ r. r.id }

instance abbrev pub Qer_HasId : HasId Qer
Qer_HasId = record { id_of = λ r. r.id }

instance abbrev pub Urr_HasId : HasId Urr
Urr_HasId = record { id_of = λ r. r.id }

-- The loop that `findFar`, `findQer` and `findUrr` share; `none` is the null pointer.
unfoldable pub find_rule {ℓ} : {A : Type ℓ} ⦃h : HasId A⦄ → RuleId → List A → Option A
find_rule id [] = none
find_rule ⦃h⦄ id (r ∷ rs) = if h.id_of r == id then some r else find_rule id rs

unfoldable pub find_far : RuleSet → RuleId → Option Far
find_far rules id = find_rule id rules.fars

unfoldable pub find_qer : RuleSet → RuleId → Option Qer
find_qer rules id = find_rule id rules.qers

unfoldable pub find_urr : RuleSet → RuleId → Option Urr
find_urr rules id = find_rule id rules.urrs
