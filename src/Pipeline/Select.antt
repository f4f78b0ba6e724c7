-- ===== src/Pipeline/Select.antt =====
-- The loop over the PDRs: the candidates and the winner.
use upfpolicyengine.Common.{
  Bool, ◌&&◌, Option, some, List, [], ◌∷◌, ltb, push_back, if◌then◌else◌, absent_or,
}
use upfpolicyengine.Address.{Inet}
use upfpolicyengine.Packet.{Packet}
use upfpolicyengine.Rules.{Pdr}
use upfpolicyengine.Decision.{MatchCandidate}
use upfpolicyengine.Matcher.{evaluate_candidate}

-- The winner after one more PDR.
unfoldable pub better : Bool → Pdr → Option Pdr → Option Pdr
better matched pdr winner =
    if matched && absent_or winner (λ w. ltb pdr.precedence w.precedence) then some pdr else winner

unfoldable pub scan :
    Inet → Packet → List Pdr → List MatchCandidate → Option Pdr → List MatchCandidate × Option Pdr
scan inet packet [] candidates winner = (candidates, winner)
scan inet packet (pdr ∷ pdrs) candidates winner =
    let candidate = evaluate_candidate inet pdr packet in
    scan inet packet pdrs (push_back candidates candidate) (better candidate.matched pdr winner)

insert_candidate : MatchCandidate → List MatchCandidate → List MatchCandidate
insert_candidate c [] = c ∷ []
insert_candidate c (d ∷ ds) =
    if ltb c.pdr_id d.pdr_id then c ∷ d ∷ ds else d ∷ insert_candidate c ds

-- `std::sort` by `pdrId`. The order of equal elements is not specified there; the identifiers of an
-- installed rule set differ.
unfoldable pub sort_candidates : List MatchCandidate → List MatchCandidate
unfolding insert_candidate
sort_candidates [] = []
sort_candidates (c ∷ cs) = insert_candidate c (sort_candidates cs)
