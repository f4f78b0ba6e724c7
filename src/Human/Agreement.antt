-- ===== src/Human/Agreement.antt =====
-- What the report of `renderHuman` (src/adapters/human_output.cpp) and the document of `renderJson`
-- (src/adapters/json_output.cpp) say of a decision: what it is for both to say the same.
pub mod Parts
pub mod Decisions
use upfpolicyengine.Common.{ℕ, ◌≡◌, ◌⊎◌, Bool, true, false, List, [], ◌∷◌, ◌++◌}
use upfpolicyengine.Common.Text.{Text, text}
use upfpolicyengine.Common.Decimal.{decimal}
use upfpolicyengine.Decision.{PacketDecision}
use upfpolicyengine.RunResult.{RunResult}
use upfpolicyengine.Json.Library.{Json, Read, got}
use upfpolicyengine.Human.Report.{unlines}

module _ (json : Json) where
  open json use {Value, null, boolean, number, string, array, at}

  -- A text, a number printed in decimal, a truth value, or null, under a key of the document.
  abbrev pub Names : Value → Text → Text → Type 0
  Names document key word = at document key ≡ got (string word)

  abbrev pub Counts : Value → Text → Text → Type 0
  Counts document key word = (n : ℕ) × (at document key ≡ got (number n)) × (word ≡ decimal n)

  abbrev pub Flags : Value → Text → Bool → Type 0
  Flags document key b = at document key ≡ got (boolean b)

  abbrev pub IsNull : Value → Text → Type 0
  IsNull document key = at document key ≡ got null

  -- A criterion: null, true or false in the document.
  pub data SaysCriterion (document : Value) : Text → Type 0 where
    not_asked : IsNull document (text "matched") → SaysCriterion document (text "NOT_APPLICABLE")
    meets : Flags document (text "matched") true → SaysCriterion document (text "MATCH")
    misses : Flags document (text "matched") false → SaysCriterion document (text "MISMATCH")

  -- The criteria of a candidate in order, one line for each.
  pub data SaysCriteria : List Value → List Text → Type 0 where
    no_criteria : SaysCriteria [] []
    next_criterion :
        {documents : List Value} {lines : List Text} (document : Value) (name outcome : Text)
        → Names document (text "name") name
        → SaysCriterion document outcome
        → SaysCriteria documents lines
        → SaysCriteria
            (document ∷ documents)
            ((text "    " ++ name ++ text ": " ++ outcome) ∷ lines)

  pub data SaysMatch (document : Value) : Text → Type 0 where
    matches : Flags document (text "matched") true → SaysMatch document (text "MATCH")
    differs : Flags document (text "matched") false → SaysMatch document (text "NO_MATCH")

  -- The candidates in order, each with its criteria behind it.
  pub data SaysCandidates : List Value → List Text → Type 0 where
    no_candidates : SaysCandidates [] []
    next_candidate :
        {documents criteria : List Value} {lines later : List Text} (document : Value)
        (id outcome : Text)
        → Counts document (text "pdrId") id
        → SaysMatch document outcome
        → at document (text "criteria") ≡ got (array criteria)
        → SaysCriteria criteria lines
        → SaysCandidates documents later
        → SaysCandidates
            (document ∷ documents)
            ((text "  PDR " ++ id ++ text ": " ++ outcome) ∷ (lines ++ later))

  -- The QER: its outcome and the sum of its tokens, or nothing in the document when none applies.
  pub data SaysQer (document : Value) : Bool → Text → Type 0 where
    charged :
        (outcome before refill charge after : Text)
        → Names document (text "outcome") outcome
        → Counts document (text "tokensBefore") before
        → Counts document (text "refillBytes") refill
        → Counts document (text "packetChargeBytes") charge
        → Counts document (text "tokensAfter") after
        → SaysQer document true (
            outcome
            ++ (text " (tokens "
                ++ before
                ++ text " + "
                ++ refill
                ++ text " - "
                ++ charge
                ++ text " = "
                ++ after
                ++ text ")"))
    no_qer :
        (words : Text)
        → Names document (text "outcome") (text "NOT_APPLICABLE")
        → IsNull document (text "tokensBefore")
        → IsNull document (text "refillBytes")
        → IsNull document (text "packetChargeBytes")
        → IsNull document (text "tokensAfter")
        → SaysQer document false words

  -- The packets and bytes of the URR, or nothing in the document when none applies.
  pub data SaysUrr (document : Value) : Bool → Text → Text → Type 0 where
    metered :
        (packets packets' bytes bytes' : Text)
        → Counts document (text "packetsBefore") packets
        → Counts document (text "packetsAfter") packets'
        → Counts document (text "bytesBefore") bytes
        → Counts document (text "bytesAfter") bytes'
        → SaysUrr document true
            (packets ++ text " -> " ++ packets')
            (bytes ++ text " -> " ++ bytes')
    no_urr :
        (packets bytes : Text)
        → IsNull document (text "packetsBefore")
        → IsNull document (text "packetsAfter")
        → IsNull document (text "bytesBefore")
        → IsNull document (text "bytesAfter")
        → SaysUrr document false packets bytes

  -- The lines of a decision, and where the document has what they say.
  pub record SaysDecision (d : PacketDecision) (document : Value) (lines : List Text) : Type 0 where
    pub packet : Text
    pub session : Text
    pub ingress : Text
    pub time : Text
    pub version : Text
    pub candidates : List Text
    pub selected : Text
    pub qer : Text
    pub far : Text
    pub packets : Text
    pub bytes : Text
    pub report : Text
    pub sink : Text
    pub result : Text
    pub candidate_documents : List Value
    pub qer_document : Value
    pub far_document : Value
    pub urr_document : Value
    pub written :
        lines
        ≡ ((text "Packet: " ++ packet)
            ∷ (text "Session: " ++ session)
            ∷ (text "Ingress: " ++ ingress)
            ∷ (text "Simulated time: " ++ time)
            ∷ (text "Ruleset version: " ++ version)
            ∷ text "PDR candidates:"
            ∷ [])
          ++ candidates
          ++ (text "PDR: " ++ selected)
            ∷ (text "QER: " ++ qer)
            ∷ (text "FAR: " ++ far)
            ∷ (text "URR packets: " ++ packets)
            ∷ (text "URR bytes: " ++ bytes)
            ∷ (text "URR report: " ++ report)
            ∷ (text "Sink: " ++ sink)
            ∷ (text "Result: " ++ result)
            ∷ []
    pub packet_says : Names document (text "packetId") packet
    pub session_says : Names document (text "sessionId") session
    pub ingress_says : Names document (text "ingress") ingress
    pub time_says : Counts document (text "arrivalTimeMicros") time
    pub version_says : Counts document (text "rulesetVersion") version
    pub candidates_are : at document (text "candidates") ≡ got (array candidate_documents)
    pub candidates_say : SaysCandidates candidate_documents candidates
    pub selected_says :
        (IsNull document (text "selectedPdrId") × (selected ≡ text "none"))
        ⊎ Counts document (text "selectedPdrId") selected
    pub qer_is : at document (text "qer") ≡ got qer_document
    pub qer_says : SaysQer qer_document d.qer.applicable qer
    pub far_is : at document (text "far") ≡ got far_document
    pub far_says : Names far_document (text "action") far
    pub urr_is : at document (text "urr") ≡ got urr_document
    pub urr_says : SaysUrr urr_document d.urr.applicable packets bytes
    pub report_says :
        (IsNull urr_document (text "usageReportId") × (report ≡ text "none"))
        ⊎ Names urr_document (text "usageReportId") report
    pub sink_says :
        (Names document (text "sink") (text "NONE") × (sink ≡ text "none"))
        ⊎ Names document (text "sink") sink
    pub result_says : Names document (text "terminalResult") result

  -- The decisions in order, the lines of each behind those of the ones before it.
  pub data SaysDecisions : List PacketDecision → List Value → List Text → Type 0 where
    no_decisions : SaysDecisions [] [] []
    next_decision :
        {ds : List PacketDecision} {documents : List Value} {lines later : List Text}
        (d : PacketDecision) (document : Value)
        → SaysDecision d document lines
        → SaysDecisions ds documents later
        → SaysDecisions (d ∷ ds) (document ∷ documents) (lines ++ later)

  -- The report of a run and its document.
  pub record SaysRun (result : RunResult) (root : Value) (report : Text) : Type 0 where
    pub notice : Text
    pub run : Text
    pub scenario : Text
    pub documents : List Value
    pub lines : List Text
    pub written :
        report ≡ unlines (notice ∷ (text "Run: " ++ run) ∷ (text "Scenario: " ++ scenario) ∷ lines)
    pub notice_says : Names root (text "disclaimer") notice
    pub run_says : Names root (text "runId") run
    pub scenario_says : Names root (text "scenarioId") scenario
    pub documents_are : at root (text "decisions") ≡ got (array documents)
    pub decisions_say : SaysDecisions result.decisions documents lines
