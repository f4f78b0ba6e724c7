-- ===== src/Json/Lists.antt =====
-- Lists of packets through a document: `parsePackets` reads what is written, and the sinks of a
-- rendered run are read back.
use upfpolicyengine.Common.{
  ℕ, zero, suc, ◌+◌, ◌≡◌, ◌∙◌, refl, ap, some, List, [], ◌∷◌, All, All-map, arith, length, map,
}
use upfpolicyengine.Common.Text.{Text, text, text_eq, text_eq_iff}
use upfpolicyengine.Address.{Inet}
use upfpolicyengine.Packet.{Packet}
use upfpolicyengine.RunResult.{RunResult}
use upfpolicyengine.Json.Library.{Json, IsLawful, Read, got, find, nth}
use upfpolicyengine.Json.Input.{read_each, read_list, parse_packet, parse_packets}
use upfpolicyengine.Json.Output.{packet_json, root_members}
use upfpolicyengine.Json.Roundtrip.{IsWritable, parse_packet-packet_json}

nth-map {ℓ κ} :
    {A : Type ℓ} {V : Type κ} (g : A → V) (xs : List A) (k : ℕ) (a : A)
    → nth xs k ≡ some a
    → nth (map g xs) k ≡ some (g a)
unfolding nth
nth-map g [] k a e = cc
nth-map g (x ∷ xs) zero a e = cc
nth-map g (x ∷ xs) (suc k) a e = nth-map g xs k a e

length-map {ℓ κ} :
    {A : Type ℓ} {V : Type κ} (g : A → V) (xs : List A) → length (map g xs) ≡ length xs
length-map g [] = refl
length-map g (x ∷ xs) = ap suc (length-map g xs)

map-id {ℓ} : {A : Type ℓ} (xs : List A) → map (λ x. x) xs ≡ xs
map-id [] = refl
map-id (x ∷ xs) = ap (λ ys. x ∷ ys) (map-id xs)

-- A loop reads each item as the value that it is written from.
read_each-map {ℓ κ μ} :
    {X : Type ℓ} {V : Type κ} {A : Type μ} (item : ℕ → Read V) (f : V → Read A) (g : X → V)
    (value : X → A) (xs : List X) (i : ℕ)
    → ((j k : ℕ) (x : X) → j ≡ i + k → nth xs k ≡ some x → item j ≡ got (g x))
    → All (λ x. f (g x) ≡ got (value x)) xs
    → read_each item f i (length xs) ≡ got (map value xs)
unfolding read_each nth
read_each-map item f g value [] i h r = refl
read_each-map item f g value (x ∷ xs) i h (r, rs) =
    let rest =
      read_each-map item f g value xs (suc i) (λ j k a at e. h j (suc k) a (omega arith) e) rs in
    rw (h i zero x (omega arith) refl, r, rest) refl

module _ (json : Json) (laws : IsLawful json) where
  open json use {Value, object, array, element, member}

  abbrev Members : Type 0
  Members = List (Text × Value)

  read_back :
      (inet : Inet) (packets : List Packet)
      → All (IsWritable inet) packets
      → All (λ p. parse_packet json inet (packet_json json inet p) ≡ got p) packets
  read_back inet packets w =
      All-map (IsWritable inet) (λ p. parse_packet json inet (packet_json json inet p) ≡ got p)
        packets (parse_packet-packet_json json laws inet) w

  element-array :
      {X : Type 0} (g : X → Value) (xs : List X) (j k : ℕ) (x : X)
      → j ≡ 0 + k
      → nth xs k ≡ some x
      → element (array (map g xs)) j ≡ got (g x)
  element-array g xs j k x at e =
      let same : j ≡ k = omega arith in
      laws.array_element (map g xs) j (g x) (rw same (nth-map g xs k x e))

  -- The loop over an array that is written from values.
  pub read_list-array :
      {X A : Type 0} (ms : Members) (key : Text) (f : Value → Read A) (g : X → Value)
      (value : X → A) (xs : List X)
      → find key ms ≡ some (array (map g xs))
      → All (λ x. f (g x) ≡ got (value x)) xs
      → read_list json (object ms) key f ≡ got (map value xs)
  unfolding read_list
  read_list-array ms key f g value xs e r =
      rw (laws.object_at ms key (array (map g xs)) e, laws.array_size (map g xs), length-map g xs)
        (read_each-map (element (array (map g xs))) f g value xs 0 (element-array g xs) r)

  read_list-packets :
      (inet : Inet) (ms : Members) (key : Text) (packets : List Packet)
      → All (IsWritable inet) packets
      → find key ms ≡ some (array (map (packet_json json inet) packets))
      → read_list json (object ms) key (parse_packet json inet) ≡ got packets
  read_list-packets inet ms key packets w e =
      read_list-array ms key (parse_packet json inet) (packet_json json inet) (λ p. p) packets e
        (read_back inet packets w)
      ∙ ap got (map-id packets)

  find_first : (key : Text) (v : Value) (ms : Members) → find key ((key, v) ∷ ms) ≡ some v
  unfolding find
  find_first key v ms = rw (find, (text_eq_iff key key).1 refl) refl

  -- With a lawful library, numbers that fit their types, and a C library that reads the addresses as
  -- it prints them: what `parsePackets` reads of a document whose packets `packetJson` has written is
  -- those packets, in their order and with every field, whatever else is in the document. The
  -- document need not be one that packets.schema.json allows: it can have members of other names, a
  -- number (a TEID or QFI too) need only fit its type, an identifier can be any text, and there can
  -- be no packets.
  pub parse_packets-packet_json :
      (inet : Inet) (packets : List Packet) (others : Members)
      → All (IsWritable inet) packets
      → parse_packets json inet
          (object ((text "packets", array (map (packet_json json inet) packets)) ∷ others))
        ≡ got packets
  unfolding parse_packets
  parse_packets-packet_json inet packets others w =
      let written = map (packet_json json inet) packets in
      let ms : Members = (text "packets", array written) ∷ others in
      let there = find_first (text "packets") (array written) others in
      rw
        (
          laws.object_at ms (text "packets") (array written) there,
          laws.array_size written,
          length-map (packet_json json inet) packets,
          laws.object_member ms (text "packets") (array written) there,
        )
        (read_each-map (element (array written)) (parse_packet json inet) (packet_json json inet)
            (λ p. p) packets 0 (element-array (packet_json json inet) packets)
            (read_back inet packets w)
          ∙ ap got (map-id packets))

  sink_members :
      (inet : Inet) (result : RunResult)
      → (find (text "n3Sink") (root_members json inet result)
          ≡ some (array (map (packet_json json inet) result.n3_sink)))
        × (find (text "n6Sink") (root_members json inet result)
            ≡ some (array (map (packet_json json inet) result.n6_sink)))
  unfolding root_members find text text_eq
  sink_members inet result = (refl, refl)

  -- With a lawful library, and for packets in the sinks whose numbers fit their types and whose
  -- addresses are read as they are printed: they can be read back, for both sinks, from the document
  -- that is rendered of the run.
  pub read_sinks-root_members :
      (inet : Inet) (result : RunResult)
      → All (IsWritable inet) result.n3_sink
      → All (IsWritable inet) result.n6_sink
      → (read_list json
            (object (root_members json inet result))
            (text "n3Sink")
            (parse_packet json inet)
          ≡ got result.n3_sink)
        × (read_list json
              (object (root_members json inet result))
              (text "n6Sink")
              (parse_packet json inet)
            ≡ got result.n6_sink)
  read_sinks-root_members inet result w3 w6 =
      let (n3, n6) = sink_members inet result in
      let ms = root_members json inet result in
      (
        read_list-packets inet ms (text "n3Sink") result.n3_sink w3 n3,
        read_list-packets inet ms (text "n6Sink") result.n6_sink w6 n6,
      )
