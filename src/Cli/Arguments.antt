-- ===== src/Cli/Arguments.antt =====
-- The loop over the arguments of `main` reads back what the options are written as.
use upfpolicyengine.Common.{◌≡◌, refl, Bool, true, false, List, [], ◌∷◌}
use upfpolicyengine.Common.Text.{Text, text, text_eq}
use upfpolicyengine.Cli.{Options, default_options, parsed, parse_arguments}

abbrev list_argument : Bool → List Text
list_argument true = text "--list-scenarios" ∷ []
list_argument false = []

-- The arguments that ask for these options.
abbrev pub arguments : Options → List Text
arguments o =
    text "--scenario"
    ∷ o.scenario
    ∷ text "--rules"
    ∷ o.rules
    ∷ text "--packets"
    ∷ o.packets
    ∷ text "--output"
    ∷ o.output
    ∷ list_argument o.list

read_back :
    (scenario rules packets output : Text) (list : Bool)
    → parse_arguments default_options (
        arguments (record {
          scenario = scenario;
          rules = rules;
          packets = packets;
          output = output;
          list = list;
        }))
      ≡ parsed (record {
        scenario = scenario;
        rules = rules;
        packets = packets;
        output = output;
        list = list;
      })
unfolding parse_arguments text text_eq
read_back scenario rules packets output true = refl
read_back scenario rules packets output false = refl

-- Whatever the options are, also where a value looks like a flag: written as arguments they are read
-- back.
pub parse_arguments-arguments :
    (o : Options) → parse_arguments default_options (arguments o) ≡ parsed o
parse_arguments-arguments o = read_back o.scenario o.rules o.packets o.output o.list
