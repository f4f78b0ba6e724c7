-- ===== src/Witnesses/Documents.antt =====
-- A JSON library of trees, with the laws; the theorems on documents at a session with two packets.
use upfpolicyengine.Common.{
  ℕ, ◌%◌, ◌≡◌, refl, sym, ap, ◌∙◌, inl, inr, Bool, true, false, Option, none, some, List, [], ◌∷◌,
  map, arith, ◌==◌, length, push_back, has_value, Bool-cases, if◌then◌else◌,
}
use upfpolicyengine.Common.Text.{Text, text, text_Eq, text_eq_iff}
use upfpolicyengine.Types.{Result, success, failure}
use upfpolicyengine.Address.{Inet, IpAddress, ipv4, ipv6, zeros, parse_address, to_string, c_str}
use upfpolicyengine.Types.{n6}
use upfpolicyengine.Packet.{Packet}
use upfpolicyengine.RunResult.{RunResult, default_result}
use upfpolicyengine.Witnesses.Fixture.{packet}
use upfpolicyengine.Json.Input.{parse_packet, parse_packets, read_list}
use upfpolicyengine.Json.Output.{packet_json, root_members}
use upfpolicyengine.Json.Roundtrip.{IsWritable}
use upfpolicyengine.Json.Lists.{parse_packets-packet_json, read_sinks-root_members}
use upfpolicyengine.Json.Library.{Json, IsLawful, Read, got, failed, undefined, find, nth}

pub data Node : Type 0 where
  null_node : Node
  boolean_node : Bool → Node
  number_node : ℕ → Node
  string_node : Text → Node
  array_node : ℕ → (ℕ → Node) → Node
  object_node : (Text → Bool) → (Text → Node) → Node

abbrev pub node_or_null : Option Node → Node
node_or_null none = null_node
node_or_null (some v) = v

abbrev pub wrong_type : Text
wrong_type = text "type_error"

abbrev pub string_of : Node → Read Text
string_of (string_node s) = got s
string_of _ = failed wrong_type

abbrev pub unsigned_of : ℕ → Node → Read ℕ
unsigned_of width (number_node n) = got (n % width)
unsigned_of width _ = failed wrong_type

abbrev pub node_assign : Node → Text → Node → Node
node_assign (object_node has get) key v =
    object_node (λ k. if k == key then true else has k) (λ k. if k == key then v else get k)
node_assign v key w = v

abbrev pub node_at : Read Node → Node → Text → Read Node
node_at missing (object_node has get) key = if has key then got (get key) else missing
node_at missing _ key = failed wrong_type

abbrev pub node_contains : Node → Text → Bool
node_contains (object_node has get) key = has key
node_contains _ key = false

abbrev pub node_size : Node → ℕ
node_size (array_node n get) = n
node_size null_node = 0
node_size _ = 1

abbrev pub node_element : Node → ℕ → Read Node
node_element (array_node n get) i = got (get i)
node_element _ i = failed wrong_type

abbrev pub node_equals : Node → Text → Bool
node_equals (string_node s) t = s == t
node_equals _ t = false

abbrev pub is_string_node : Node → Bool
is_string_node (string_node s) = true
is_string_node _ = false

abbrev pub node_value_or : Node → Text → Text → Result Text
node_value_or (object_node has get) key default =
    if has key
    then (elim (get key) [ string_node s ↦ success s | _ ↦ failure wrong_type ])
    else success default
node_value_or _ key default = failure wrong_type

abbrev pub trees : (Text → Result Node) → Json
trees parse = record {
  Value = Node;
  null = null_node;
  boolean = boolean_node;
  number = number_node;
  string = string_node;
  array = λ vs. array_node (length vs) (λ i. node_or_null (nth vs i));
  object = λ ms. object_node (λ k. has_value (find k ms)) (λ k. node_or_null (find k ms));
  assign = node_assign;
  dump = λ v. success (text "document");
  parse = parse;
  is_string = is_string_node;
  get_string = string_of;
  get_unsigned = unsigned_of;
  equals = node_equals;
  contains = node_contains;
  at = node_at (failed (text "out_of_range"));
  member = node_at undefined;
  size = node_size;
  element = node_element;
  value_or = node_value_or;
}

abbrev or_else : Option Node → Option Node → Option Node
or_else none o = o
or_else (some v) o = some v

find-push_back :
    (ms : List (Text × Node)) (key j : Text) (v : Node)
    → find j (push_back ms (key, v)) ≡ or_else (find j ms) (if key == j then some v else none)
unfolding find
find-push_back [] key j v = refl
find-push_back ((k, w) ∷ ms) key j v = elim (Bool-cases (k == j)) [
  | inl same ↦ rw (find, same) refl
  | inr other ↦ rw (find, other) (find-push_back ms key j v)
]

-- What is pushed back is found under its key, and else what was found before.
find-assigned :
    (ms : List (Text × Node)) (key j : Text) (v : Node)
    → find key ms ≡ none
    → find j (push_back ms (key, v)) ≡ (if j == key then some v else find j ms)
find-assigned ms key j v e = find-push_back ms key j v ∙ elim (Bool-cases (j == key)) [
  | inl same ↦
      let here = (text_eq_iff j key).0 same in
      let back = (text_eq_iff key j).1 (sym here) in
      let missing : find j ms ≡ none = rw here e in rw (same, back, missing) refl
  | inr other ↦ rw other (elim (Bool-cases (key == j)) [
    | inl same ↦
        absurd (true-false (sym ((text_eq_iff j key).1 (sym ((text_eq_iff key j).0 same))) ∙ other))
    | inr differs ↦ rw differs (or_else-none (find j ms))
  ])
]
  where
    true-false : true ≡ false → ⊥
    true-false e = cc e

    or_else-none : (o : Option Node) → or_else o none ≡ o
    or_else-none none = refl
    or_else-none (some v) = refl

if-ap :
    {A B : Type 0} (f : A → B) (b : Bool) (x y : A)
    → (if b then f x else f y) ≡ f (if b then x else y)
if-ap f true x y = refl
if-ap f false x y = refl

pushed :
    {B : Type 0} (f : Option Node → B) (ms : List (Text × Node)) (key : Text) (v : Node)
    → find key ms ≡ none
    → (k : Text)
    → (if k == key then f (some v) else f (find k ms)) ≡ f (find k (push_back ms (key, v)))
pushed f ms key v e k =
    if-ap f (k == key) (some v) (find k ms) ∙ ap f (sym (find-assigned ms key k v e))

pub trees-IsLawful : (parse : Text → Result Node) → IsLawful (trees parse)
trees-IsLawful parse = record {
  string_is = λ s. refl;
  string_got = λ s. refl;
  number_got = λ width n. refl;
  string_equals = λ s t. refl;
  object_contains = λ ms key. refl;
  object_at = λ ms key v e. rw e refl;
  object_member = λ ms key v e. rw e refl;
  object_assign = λ ms key v e. assigned ms key v e;
  array_size = λ vs. refl;
  array_element = λ vs i v e. rw e refl;
}
  where
    assigned :
        (ms : List (Text × Node)) (key : Text) (v : Node)
        → find key ms ≡ none
        → object_node
            (λ k. if k == key then true else has_value (find k ms))
            (λ k. if k == key then v else node_or_null (find k ms))
          ≡ object_node
              (λ k. has_value (find k (push_back ms (key, v))))
              (λ k. node_or_null (find k (push_back ms (key, v))))
    assigned ms key v e i =
        object_node (λ k. pushed has_value ms key v e k i) (λ k. pushed node_or_null ms key v e k i)

-- A C library that prints an IPv4 address as its bytes.
abbrev pub echo_inet : Inet
echo_inet = record {
  pton = λ family s. elim family [ ipv4 ↦ some s | ipv6 ↦ none ];
  ntop = λ family bytes. some bytes;
}

abbrev pub host : IpAddress
host = record { family = ipv4; bytes = 49 ∷ 50 ∷ 51 ∷ 52 ∷ zeros 12 }

abbrev pub up : Packet
up = record packet { source_ip = host; destination_ip = host }

abbrev pub down : Packet
down = record up { ingress = n6; tunnel = none }

pub up-IsWritable : IsWritable echo_inet up
unfolding parse_address to_string c_str
up-IsWritable = record {
  source_ip = refl;
  destination_ip = refl;
  source_port = omega arith;
  destination_port = omega arith;
  payload_bytes = omega arith;
  arrival_time_micros = omega arith;
  tunnel = λ t e. ground (arith, e);
}

pub down-IsWritable : IsWritable echo_inet down
unfolding parse_address to_string c_str
down-IsWritable = record {
  source_ip = refl;
  destination_ip = refl;
  source_port = omega arith;
  destination_port = omega arith;
  payload_bytes = omega arith;
  arrival_time_micros = omega arith;
  tunnel = λ t e. cc e;
}

abbrev silent : Json
silent = trees (λ s. failure s)

parse_packets-packet_json_example :
    parse_packets silent echo_inet (
      silent.object (
        (text "packets", silent.array (map (packet_json silent echo_inet) (up ∷ down ∷ [])))
        ∷ (text "runId", string_node (text "r"))
        ∷ []))
    ≡ got (up ∷ down ∷ [])
parse_packets-packet_json_example =
    parse_packets-packet_json silent (trees-IsLawful (λ s. failure s)) echo_inet (up ∷ down ∷ [])
      ((text "runId", string_node (text "r")) ∷ []) (up-IsWritable, (down-IsWritable, tt))

abbrev forwarded : RunResult
forwarded = record default_result { n3_sink = up ∷ []; n6_sink = down ∷ [] }

read_sinks-root_members_example :
    (read_list silent
        (silent.object (root_members silent echo_inet forwarded))
        (text "n3Sink")
        (parse_packet silent echo_inet)
      ≡ got (up ∷ []))
    × (read_list silent
          (silent.object (root_members silent echo_inet forwarded))
          (text "n6Sink")
          (parse_packet silent echo_inet)
        ≡ got (down ∷ []))
read_sinks-root_members_example =
    read_sinks-root_members silent (trees-IsLawful (λ s. failure s)) echo_inet forwarded
      (up-IsWritable, tt) (down-IsWritable, tt)
