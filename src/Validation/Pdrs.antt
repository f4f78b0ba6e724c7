-- ===== src/Validation/Pdrs.antt =====
-- What the loop over the PDRs in validateRuleSet (src/domain/validation.cpp) accepts.
use upfpolicyengine.Common.{
  ◌≤◌, ◌≡◌, refl, ◌↔◌, ◌⊎◌, inl, inr, true, false, none, some, List, [], ◌∷◌, arith, has_value,
  present_and, All, AllPairs, WhenSome, ◌==◌, Option-cases,
}
use upfpolicyengine.Types.{
  FarAction, Interface, n3, n6, Interface_Eq, forward, drop, tunnel_none, add, remove, success,
  ◌>>◌, >>-success_iff,
}
use upfpolicyengine.Packet.{is_valid_tunnel}
use upfpolicyengine.Rules.{Pdr, Far, RuleSet, find_far, find_qer, find_urr}
use upfpolicyengine.Validation.{
  validate_far, validate_pdr, match_spaces_overlap, validate_disjoint, validate_pdrs,
}

-- A FAR that suits a PDR's interface: it drops with no parameters, or sends to the other side with
-- the tunnel operation of that direction.
pub data Suits (source : Interface) (far : Far) : Type 0 where
  drops :
      far.action ≡ drop → far.destination ≡ none → far.operation ≡ tunnel_none → Suits source far
  uplink :
      far.action ≡ forward
      → source ≡ n3
      → far.destination ≡ some n6
      → far.operation ≡ remove
      → Suits source far
  downlink :
      far.action ≡ forward
      → source ≡ n6
      → far.destination ≡ some n3
      → far.operation ≡ add
      → present_and far.tunnel is_valid_tunnel ≡ true
      → Suits source far

Action-cases : (a : FarAction) → (a ≡ forward) ⊎ (a ≡ drop)
Action-cases forward = inl refl
Action-cases drop = inr refl

validate_far-Suits :
    (source : Interface) (far : Far) → validate_far source far ≡ success tt → Suits source far
unfolding validate_far
validate_far-Suits n3 far h = elim (Action-cases far.action) [
  | inl e ↦ uplink e refl (ground arith) (ground arith)
  | inr e ↦ drops e (ground arith) (ground arith)
]
validate_far-Suits n6 far h = elim (Action-cases far.action) [
  | inl e ↦ downlink e refl (ground arith) (ground arith) (ground arith)
  | inr e ↦ drops e (ground arith) (ground arith)
]

pub Suits-validate_far :
    (source : Interface) (far : Far) → Suits source far → validate_far source far ≡ success tt
unfolding validate_far
Suits-validate_far source far (drops a d o) = ground arith
Suits-validate_far source far (uplink a s d o) = ground arith
Suits-validate_far source far (downlink a s d o t) = ground arith

-- A PDR whose references resolve and whose parts fit together.
pub record IsValidPdr (rules : RuleSet) (pdr : Pdr) : Type 0 where
  pub far : Far
  pub far_found : find_far rules pdr.far_id ≡ some far
  pub qer_found : WhenSome pdr.qer_id (λ id. has_value (find_qer rules id) ≡ true)
  pub urr_found : WhenSome pdr.urr_id (λ id. has_value (find_urr rules id) ≡ true)
  pub teid_by_source : has_value pdr.teid ≡ (pdr.source_interface == n3)
  pub local_ports : WhenSome pdr.local_ports (λ r. r.first ≤ r.last)
  pub remote_ports : WhenSome pdr.remote_ports (λ r. r.first ≤ r.last)
  pub suits : Suits pdr.source_interface far

validate_pdr-IsValidPdr :
    (rules : RuleSet) (pdr : Pdr) → validate_pdr rules pdr ≡ success tt → IsValidPdr rules pdr
unfolding validate_pdr
validate_pdr-IsValidPdr rules pdr h = elim (Option-cases (find_far rules pdr.far_id)) [
  | inl e ↦ absurd (ground arith)
  | inr (far, e) ↦ record {
    far = far;
    far_found = e;
    qer_found = ground arith;
    urr_found = ground arith;
    teid_by_source = ground arith;
    local_ports = ground arith;
    remote_ports = ground arith;
    suits = validate_far-Suits pdr.source_interface far (ground arith);
  }
]

IsValidPdr-validate_pdr :
    (rules : RuleSet) (pdr : Pdr) → IsValidPdr rules pdr → validate_pdr rules pdr ≡ success tt
unfolding validate_pdr
IsValidPdr-validate_pdr rules pdr v = ground (
  arith,
  v.far_found,
  v.qer_found,
  v.urr_found,
  v.teid_by_source,
  v.local_ports,
  v.remote_ports,
  Suits-validate_far pdr.source_interface v.far v.suits,
)

-- Two PDRs of one precedence whose match spaces do not overlap, or of two precedences.
abbrev pub IsDisjoint : Pdr → Pdr → Type 0
IsDisjoint a b = a.precedence ≡ b.precedence → match_spaces_overlap a b ≡ false

validate_disjoint-All :
    (pdr : Pdr) (later : List Pdr)
    → (validate_disjoint pdr later ≡ success tt) ↔ All (IsDisjoint pdr) later
unfolding validate_disjoint
validate_disjoint-All pdr [] = (λ h. tt, λ h. refl)
validate_disjoint-All pdr (other ∷ later) =
    let rest = validate_disjoint-All pdr later in
    (λ h. ((λ same. ground arith), rest.0 (ground arith)), λ h. ground (arith, h.0, rest.1 h.1))

pub validate_pdrs-All :
    (rules : RuleSet) (pdrs : List Pdr)
    → (validate_pdrs rules pdrs ≡ success tt)
      ↔ (All (IsValidPdr rules) pdrs × AllPairs IsDisjoint pdrs)
unfolding validate_pdrs
validate_pdrs-All rules [] = (λ h. (tt, tt), λ h. refl)
validate_pdrs-All rules (pdr ∷ later) =
    let rest = validate_pdrs-All rules later in
    let disjoint = validate_disjoint-All pdr later in
    let first =
      >>-success_iff (validate_pdr rules pdr)
        (validate_disjoint pdr later >> validate_pdrs rules later) in
    let second = >>-success_iff (validate_disjoint pdr later) (validate_pdrs rules later) in
    (
      λ h.
          let one = first.0 h in
          let two = second.0 one.1 in
          let all = rest.0 two.1 in
          ((validate_pdr-IsValidPdr rules pdr one.0, all.0), (disjoint.0 two.0, all.1)),
      λ h. first.1 (
        IsValidPdr-validate_pdr rules pdr h.0.0,
        second.1 (disjoint.1 h.1.0, rest.1 (h.0.1, h.1.1)),
      ),
    )
