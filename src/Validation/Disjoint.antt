-- ===== src/Validation/Disjoint.antt =====
-- Why validateRuleSet (src/domain/validation.cpp) asks for disjoint match spaces: PDRs that one
-- packet matches overlap, so the packet's winner does not depend on the order of the PDRs.
use upfpolicyengine.Common.{
  ℕ, ◌≤◌, ◌≡◌, ◌↔◌, refl, sym, ap, ◌∙◌, subst, ◌⊎◌, inl, inr, true, ◌||◌, Option, none, some, List,
  [], ◌∷◌, arith, All, AllPairs, Any, here, there, Any-All, WhenSome, Eq, ℕ_Eq, some_inj,
}
use upfpolicyengine.Types.{Interface_Eq, interface_eq_iff, TransportProtocol_Eq}
use upfpolicyengine.Address.{Inet, PortRange, contains}
use upfpolicyengine.Address.Prefix.{IsByte, contains-overlap}
use upfpolicyengine.Packet.{Packet, TunnelMetadata}
use upfpolicyengine.Rules.{Pdr}
use upfpolicyengine.Validation.{ranges_overlap, optional_values_overlap, match_spaces_overlap}
use upfpolicyengine.Validation.Pdrs.{IsDisjoint}
use upfpolicyengine.Matcher.{ue_address}
use upfpolicyengine.Matcher.Matches.{Matches, evaluate_candidate-Matches}
use upfpolicyengine.Pipeline.Winner.{IsWinner, Yields, Matched, Selected, scan-Selected}
use upfpolicyengine.Pipeline.{scan}

ranges_meet :
    (a b : Option PortRange) (port : ℕ)
    → WhenSome a (λ r. (r.first ≤ port) × (port ≤ r.last))
    → WhenSome b (λ r. (r.first ≤ port) × (port ≤ r.last))
    → ranges_overlap a b ≡ true
unfolding ranges_overlap
ranges_meet none b port h k = refl
ranges_meet (some r) none port h k = refl
ranges_meet (some r) (some s) port h k = ground arith

values_meet {ℓ} :
    {T : Type ℓ} ⦃e : Eq T⦄ (a b : Option T) (P : T → Type ℓ)
    → ((x y : T) → P x → P y → x ≡ y)
    → WhenSome a P
    → WhenSome b P
    → optional_values_overlap a b ≡ true
unfolding optional_values_overlap
values_meet none b P unique h k = refl
values_meet (some x) none P unique h k = refl
values_meet ⦃e⦄ (some x) (some y) P unique h k = (e.same_iff x y).1 (unique x y h k)

-- A value that the packet's tunnel has is one value.
one_value :
    (field : TunnelMetadata → ℕ) (packet : Packet) (x y : ℕ)
    → ((t : TunnelMetadata) × (packet.tunnel ≡ some t) × (field t ≡ x))
    → ((t : TunnelMetadata) × (packet.tunnel ≡ some t) × (field t ≡ y))
    → x ≡ y
one_value field packet x y (t, h, e) (t', h', e') = sym e ∙ ap field (some_inj (sym h ∙ h')) ∙ e'

abbrev pub PrefixIsBytes : Pdr → Type 0
PrefixIsBytes pdr = All IsByte pdr.ue_prefix.network.bytes

prefixes_meet :
    (a b : Pdr) (packet : Packet)
    → PrefixIsBytes a
    → PrefixIsBytes b
    → All IsByte (ue_address packet).bytes
    → Matches a packet
    → Matches b packet
    → (contains a.ue_prefix b.ue_prefix.network || contains b.ue_prefix a.ue_prefix.network) ≡ true
prefixes_meet a b packet ba bb bp m n =
    elim (contains-overlap a.ue_prefix b.ue_prefix (ue_address packet) ba bb bp m.prefix n.prefix) [
      | inl e ↦ ground (arith, e)
      | inr e ↦ ground (arith, e)
    ]

-- Two PDRs that match one packet have overlapping match spaces.
pub Matches-overlap :
    (a b : Pdr) (packet : Packet)
    → PrefixIsBytes a
    → PrefixIsBytes b
    → All IsByte (ue_address packet).bytes
    → Matches a packet
    → Matches b packet
    → match_spaces_overlap a b ≡ true
unfolding match_spaces_overlap
Matches-overlap a b packet ba bb bp m n = ground (
  arith,
  (interface_eq_iff a.source_interface b.source_interface).1 (m.ingress ∙ sym n.ingress),
  values_meet a.teid b.teid _ (one_value (λ t. t.teid) packet) m.teid n.teid,
  prefixes_meet a b packet ba bb bp m n,
  values_meet a.protocol b.protocol _ (λ x y h k. h ∙ sym k) m.protocol n.protocol,
  ranges_meet a.local_ports b.local_ports _ m.local_ports n.local_ports,
  ranges_meet a.remote_ports b.remote_ports _ m.remote_ports n.remote_ports,
  values_meet a.qfi b.qfi _ (one_value (λ t. t.qfi) packet) m.qfi n.qfi,
)

-- Two members of a list are one, or stand in the relation of the pairs.
members_pair {ℓ} :
    {A : Type ℓ} (P : A → A → Type 0) (xs : List A) {x y : A}
    → AllPairs P xs
    → Any (λ z. z ≡ x) xs
    → Any (λ z. z ≡ y) xs
    → (x ≡ y) ⊎ (P x y ⊎ P y x)
members_pair P [] h a b = elim a [ ]
members_pair P (z ∷ xs) h (here e) (here f) = inl (sym e ∙ f)
members_pair P (z ∷ xs) {x} {y} h (here e) (there b) =
    inr (inl (subst (λ w. P w y) e (Any-All (P z) xs h.0 b)))
members_pair P (z ∷ xs) {x} {y} h (there a) (here f) =
    inr (inr (subst (λ w. P w x) f (Any-All (P z) xs h.0 a)))
members_pair P (z ∷ xs) h (there a) (there b) = members_pair P xs h.1 a b

All-members {ℓ} :
    {A : Type ℓ} {P : A → Type 0} (xs : List A) → ((x : A) → Any (λ y. y ≡ x) xs → P x) → All P xs
All-members [] f = tt
All-members (x ∷ xs) f = (f x (here refl), All-members xs (λ y a. f y (there a)))

module _ (inet : Inet) (packet : Packet) (pdrs : List Pdr) (disjoint : AllPairs IsDisjoint pdrs)
    (bytes : All PrefixIsBytes pdrs) (ue_bytes : All IsByte (ue_address packet).bytes) where
  meets :
      (w w' : Pdr)
      → IsWinner inet packet pdrs w
      → IsWinner inet packet pdrs w'
      → match_spaces_overlap w w' ≡ true
  meets w w' h h' =
      Matches-overlap w w' packet (Any-All PrefixIsBytes pdrs bytes h.listed)
        (Any-All PrefixIsBytes pdrs bytes h'.listed) ue_bytes
        ((evaluate_candidate-Matches inet w packet).0 h.matched)
        ((evaluate_candidate-Matches inet w' packet).0 h'.matched)

  level :
      (w w' : Pdr)
      → IsWinner inet packet pdrs w
      → IsWinner inet packet pdrs w'
      → w.precedence ≡ w'.precedence
  level w w' h h' =
      let below = Any-All (Yields inet packet w) pdrs h.lowest h'.listed h'.matched in
      let above = Any-All (Yields inet packet w') pdrs h'.lowest h.listed h.matched in omega arith

  -- Two winners of a packet among such PDRs are one.
  pub winner_unique :
      (w w' : Pdr) → IsWinner inet packet pdrs w → IsWinner inet packet pdrs w' → w ≡ w'
  winner_unique w w' h h' = elim (members_pair IsDisjoint pdrs disjoint h.listed h'.listed) [
    | inl same ↦ same
    | inr (inl apart) ↦ absurd (ground (arith, apart (level w w' h h'), meets w w' h h'))
    | inr (inr apart) ↦ absurd (ground (arith, apart (level w' w h' h), meets w' w h' h))
  ]

  -- The members of another order.
  abbrev pub Reorders : List Pdr → Type 0
  Reorders pdrs' = (x : Pdr) → Any (λ y. y ≡ x) pdrs ↔ Any (λ y. y ≡ x) pdrs'

  moved :
      (pdrs' : List Pdr) (w : Pdr)
      → Reorders pdrs'
      → IsWinner inet packet pdrs' w
      → IsWinner inet packet pdrs w
  moved pdrs' w same h = record {
    listed = (same w).1 h.listed;
    matched = h.matched;
    lowest = All-members pdrs (λ x a. Any-All (Yields inet packet w) pdrs' h.lowest ((same x).0 a));
  }

  agree_on :
      (pdrs' : List Pdr) (o o' : Option Pdr)
      → Reorders pdrs'
      → Selected inet packet pdrs o
      → Selected inet packet pdrs' o'
      → o ≡ o'
  agree_on pdrs' none none same h h' = refl
  agree_on pdrs' (some w) none same h h' =
      absurd (Any-All (λ p. ¬ Matched inet packet p) pdrs' h' ((same w).0 h.listed) h.matched)
  agree_on pdrs' none (some w) same h h' =
      absurd (Any-All (λ p. ¬ Matched inet packet p) pdrs h ((same w).1 h'.listed) h'.matched)
  agree_on pdrs' (some w) (some w') same h h' =
      ap some (winner_unique w w' h (moved pdrs' w' same h'))

  -- For PDRs of which no two have one precedence and overlapping match spaces, with prefixes and a UE
  -- address of bytes, the loop finds the same winner in any list of the same members.
  pub scan_reorder :
      (pdrs' : List Pdr)
      → Reorders pdrs'
      → (scan inet packet pdrs [] none).1 ≡ (scan inet packet pdrs' [] none).1
  scan_reorder pdrs' same =
      agree_on pdrs' _ _ same (scan-Selected inet packet pdrs) (scan-Selected inet packet pdrs')
