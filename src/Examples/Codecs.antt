-- ===== src/Examples/Codecs.antt =====
-- src/mdns/packet_codec.rs, src/utils/query.rs and src/utils/image_dimensions.rs on concrete bytes.
use plain_rs.Common.{
  ℕ, ◌+◌, ◌≤◌, ◌≡◌, ◌≢◌, refl, true, List, [], ◌∷◌, ◌++◌, Bytes, codes, length, join, arith, All,
}
use plain_rs.Common.Int.{pos}
use plain_rs.Common.Parsed.{spins, fails, gives, Safe, Holds}
use plain_rs.Utils.Utf8.{IsUtf8, nil, one}
use plain_rs.Utils.Query.{percent_decode, url_encode, query_get}
use plain_rs.Utils.Query.RoundTrip.{percent_decode-url_encode}
use plain_rs.Utils.Query.Pairs.{query_get-render, render, last_value}
use plain_rs.Utils.Image.{vp8x_extent}
use plain_rs.Utils.Image.Tiff.{dimensions}
use plain_rs.Utils.Image.{jpeg_loop, skip_fill}
use plain_rs.Utils.Image.Fuel.{jpeg_loop_enough}
use plain_rs.Utils.Image.Headers.{png_file, dimensions-png_file}
use plain_rs.Utils.Image.Safety.{dimensions-Safe}
use plain_rs.Mdns.Codec.{
  dot, encode_name, name_loop, read_name, read_questions, dns_class_in, type_ptr,
  MdnsParsedResponse,
}
use plain_rs.Mdns.Message.{build_query, parse_response}
use plain_rs.Mdns.RoundTrip.Names.{IsLabel, read_name-encode_name}
use plain_rs.Mdns.RoundTrip.Query.{read_questions-build_query}
use plain_rs.Mdns.Safety.{read_name-Inside, read_questions-Safe, parse_response-Fits, Fits}
use plain_rs.Mdns.Fuel.{name_loop_enough}

-- The labels of `tv.lan`.
abbrev labels : List Bytes
labels = codes "tv" ∷ codes "lan" ∷ []

tv-IsUtf8 : IsUtf8 (codes "tv")
tv-IsUtf8 = one (omega arith) (one (omega arith) nil)

lan-IsUtf8 : IsUtf8 (codes "lan")
lan-IsUtf8 = one (omega arith) (one (omega arith) (one (omega arith) nil))

labels-IsLabel : All IsLabel labels
labels-IsLabel = (
  (omega arith, omega arith, (refl, (refl, tt)), tv-IsUtf8),
  ((omega arith, omega arith, (refl, (refl, (refl, tt))), lan-IsUtf8), tt),
)

read_questions-build_query_example :
    read_questions (build_query (join (dot ∷ []) labels) type_ptr true)
    ≡ gives (
        record {
          name = join (dot ∷ []) labels;
          qtype = type_ptr;
          qclass = dns_class_in;
          unicast_response_requested = true;
        }
        ∷ [])
read_questions-build_query_example =
    read_questions-build_query labels type_ptr true labels-IsLabel (omega arith)

-- The name behind two bytes of a packet, with one byte behind it.
abbrev named_packet : Bytes
named_packet = 7 ∷ 7 ∷ (encode_name (join (dot ∷ []) labels) ++ (9 ∷ []))

read_name-encode_name_example :
    read_name named_packet 2
    ≡ gives (join (dot ∷ []) labels, 2 + length (encode_name (join (dot ∷ []) labels)))
read_name-encode_name_example =
    read_name-encode_name labels named_packet 2 8 (9 ∷ []) labels-IsLabel (omega arith) refl

-- A header that announces a question which is not there.
abbrev cut_packet : Bytes
cut_packet = 0 ∷ 0 ∷ 0 ∷ 0 ∷ 0 ∷ 1 ∷ 0 ∷ 0 ∷ 0 ∷ 0 ∷ 0 ∷ 0 ∷ 5 ∷ []

read_name-Inside_example :
    Holds (λ (r : Bytes × ℕ). r.1 ≤ length cut_packet) (read_name cut_packet 12)
read_name-Inside_example = read_name-Inside cut_packet 12

read_questions-Safe_example : Safe (read_questions cut_packet)
read_questions-Safe_example = read_questions-Safe cut_packet

parse_response-Fits_example :
    Holds
      (λ (r : MdnsParsedResponse). All Fits r.answers × All Fits r.additional)
      (parse_response cut_packet)
parse_response-Fits_example = parse_response-Fits cut_packet

name_loop_enough_example :
    (name_loop (λ p. fails) cut_packet 1 [] 12 ≢ spins)
    × (name_loop (λ p. fails) cut_packet 1 [] 12 ≡ name_loop (λ p. fails) cut_packet 13 [] 12)
name_loop_enough_example =
    name_loop_enough cut_packet (λ p. fails) (λ p. tt) 1 13 [] 12 (omega arith) (omega arith)

percent_decode-url_encode_example : percent_decode (url_encode (codes "tv")) ≡ codes "tv"
percent_decode-url_encode_example = percent_decode-url_encode tv-IsUtf8

query_get-render_example :
    query_get (codes "/fs" ++ (b'?' ∷ render ((codes "lan", codes "tv") ∷ []))) (codes "lan")
    ≡ last_value (codes "lan") ((codes "lan", codes "tv") ∷ [])
query_get-render_example =
    query_get-render (codes "/fs") (codes "lan") ((codes "lan", codes "tv") ∷ [])
      (refl, (refl, (refl, tt))) (lan-IsUtf8, tv-IsUtf8, tt)

dimensions-png_file_example : dimensions (png_file 640 480 (1 ∷ [])) ≡ gives (pos 640, pos 480)
dimensions-png_file_example = dimensions-png_file 640 480 (1 ∷ []) (omega arith) (omega arith)

abbrev cut_jpeg : Bytes
cut_jpeg = 0xFF ∷ 0xD8 ∷ 0xFF ∷ []

jpeg_loop_enough_example :
    (jpeg_loop 3 cut_jpeg 2 ≢ spins)
    × (jpeg_loop 3 cut_jpeg 2 ≡ jpeg_loop 1 cut_jpeg 2)
    × (skip_fill 3 cut_jpeg 2 ≢ spins)
    × (skip_fill 3 cut_jpeg 2 ≡ skip_fill 1 cut_jpeg 2)
jpeg_loop_enough_example = jpeg_loop_enough cut_jpeg 3 1 2 (omega arith) (omega arith)

dimensions-Safe_example : Safe (dimensions (codes "BM"))
dimensions-Safe_example = dimensions-Safe (codes "BM")

-- A canvas of 2 by 2 is stored as 1 and 1.
vp8x_odd : vp8x_extent 1 0 0 ≡ 1
vp8x_odd = refl

vp8x_even : vp8x_extent 2 0 0 ≡ 3
vp8x_even = refl
