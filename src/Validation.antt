-- ===== src/Validation.antt =====
-- src/domain/validation.cpp: what a rule set must satisfy before it is installed.
pub mod Identifiers
pub mod Pdrs
pub mod Accepts
pub mod Disjoint
use upfpolicyengine.Common.{
  ℕ, Bool, true, false, not, ◌&&◌, ◌||◌, Option, none, some, List, [], ◌∷◌, Eq, ℕ_Eq, ◌==◌, ltb,
  leb, nat_eq, length, if◌then◌else◌, has_value, absent_or, present_and,
}
use upfpolicyengine.Common.Text.{Text, text, is_empty}
use upfpolicyengine.Types.{
  RuleId, RuleId_Eq, Interface, n3, n6, Interface_Eq, TransportProtocol_Eq, FarAction, forward,
  drop, CapacityLimits, Result, success, failure, ◌>>=◌, ◌>>◌, refuse, is_valid_id, is_add,
  is_remove, is_tunnel_none,
}
use upfpolicyengine.Address.{PortRange, contains, is_valid_range}
use upfpolicyengine.Packet.{is_valid_tunnel}
use upfpolicyengine.Rules.{
  Pdr, Far, RuleSet, HasId, Pdr_HasId, Far_HasId, Qer_HasId, Urr_HasId, find_far, find_qer,
  find_urr,
}

-- `ids.insert(id).second` is false where the set holds `id`.
unfoldable pub holds : ℕ → List ℕ → Bool
holds id [] = false
holds id (seen ∷ ids) = nat_eq seen id || holds id ids

-- The loop of `uniqueIds`, with the set of the identifiers so far.
unfoldable pub unique_ids_from {ℓ} : {A : Type ℓ} ⦃h : HasId A⦄ → List ℕ → List A → Bool
unfolding holds
unique_ids_from seen [] = true
unique_ids_from ⦃h⦄ seen (r ∷ rs) =
    let id = h.id_of r in
    let rest = unique_ids_from (id.value ∷ seen) rs in
    if not (is_valid_id id) || holds id.value seen then false else rest

-- `uniqueIds`
unfoldable pub unique_ids {ℓ} : {A : Type ℓ} ⦃h : HasId A⦄ → List A → Bool
unfolding unique_ids_from
unique_ids rs = unique_ids_from [] rs

-- `rangesOverlap`
unfoldable pub ranges_overlap : Option PortRange → Option PortRange → Bool
ranges_overlap a b = absent_or a λ r. absent_or b λ s. leb r.first s.last && leb s.first r.last

-- `optionalValuesOverlap`
unfoldable pub optional_values_overlap {ℓ} : {T : Type ℓ} ⦃e : Eq T⦄ → Option T → Option T → Bool
optional_values_overlap a b = absent_or a λ x. absent_or b λ y. x == y

-- `matchSpacesOverlap`
unfoldable pub match_spaces_overlap : Pdr → Pdr → Bool
unfolding ranges_overlap optional_values_overlap
match_spaces_overlap a b =
    a.source_interface == b.source_interface
    && optional_values_overlap a.teid b.teid
    && (contains a.ue_prefix b.ue_prefix.network || contains b.ue_prefix a.ue_prefix.network)
    && optional_values_overlap a.protocol b.protocol
    && ranges_overlap a.local_ports b.local_ports
    && ranges_overlap a.remote_ports b.remote_ports
    && optional_values_overlap a.qfi b.qfi

-- The part of `validateRuleSet` that holds a PDR's interface against its FAR.
unfoldable pub validate_far : Interface → Far → Result (Unit {0})
validate_far source far = elim far.action [
  | forward ↦ do
    refuse (not (has_value far.destination)) (text "forward destination missing")
    refuse
        (source == n3
          && (not (present_and far.destination λ d. d == n6) || not (is_remove far.operation)))
        (text "invalid uplink FAR")
    refuse
        (source == n6
          && (not (present_and far.destination λ d. d == n3)
              || not (is_add far.operation)
              || not (present_and far.tunnel is_valid_tunnel)))
        (text "invalid downlink FAR")
  | drop ↦
      refuse (has_value far.destination || not (is_tunnel_none far.operation))
        (text "drop FAR has forwarding parameters")
]

-- The references, the tunnel identifier and the ports of a PDR, then its FAR.
unfoldable pub validate_pdr : RuleSet → Pdr → Result (Unit {0})
unfolding validate_far
validate_pdr rules pdr = elim (find_far rules pdr.far_id) [
  | none ↦ failure (text "missing FAR")
  | some far ↦ do
    refuse (present_and pdr.qer_id λ id. not (has_value (find_qer rules id))) (text "missing QER")
    refuse (present_and pdr.urr_id λ id. not (has_value (find_urr rules id))) (text "missing URR")
    refuse (pdr.source_interface == n3 && not (has_value pdr.teid)) (text "N3 PDR requires TEID")
    refuse (pdr.source_interface == n6 && has_value pdr.teid) (text "N6 PDR forbids TEID")
    refuse (present_and pdr.local_ports λ r. not (is_valid_range r)) (text "invalid local ports")
    refuse (present_and pdr.remote_ports λ r. not (is_valid_range r)) (text "invalid remote ports")
    validate_far pdr.source_interface far
]

-- The inner loop: the PDRs behind `pdr`.
unfoldable pub validate_disjoint : Pdr → List Pdr → Result (Unit {0})
validate_disjoint pdr [] = success tt
validate_disjoint pdr (other ∷ later) = do
  refuse (nat_eq pdr.precedence other.precedence && match_spaces_overlap pdr other)
      (text "equal-precedence PDR match spaces overlap")
  validate_disjoint pdr later

-- The outer loop, over the PDRs that are left.
unfoldable pub validate_pdrs : RuleSet → List Pdr → Result (Unit {0})
validate_pdrs rules [] = success tt
validate_pdrs rules (pdr ∷ later) = do
  validate_pdr rules pdr
  validate_disjoint pdr later
  validate_pdrs rules later

-- `validateRuleSet`
unfoldable pub validate_rule_set : RuleSet → CapacityLimits → Result (Unit {0})
validate_rule_set rules limits = do
  refuse (is_empty rules.session_id || nat_eq rules.version 0) (text "invalid session/version")
  refuse
      (ltb limits.rules_per_type (length rules.pdrs)
        || ltb limits.rules_per_type (length rules.fars)
        || ltb limits.rules_per_type (length rules.qers)
        || ltb limits.rules_per_type (length rules.urrs))
      (text "rule capacity exceeded")
  refuse
      (not (unique_ids rules.pdrs)
        || not (unique_ids rules.fars)
        || not (unique_ids rules.qers)
        || not (unique_ids rules.urrs))
      (text "invalid or duplicate rule ID")
  validate_pdrs rules rules.pdrs
