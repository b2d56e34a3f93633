-- ===== src/Mdns/RoundTrip/Query.antt =====
-- `read_questions` of src/mdns/packet_codec.rs on what `build_query` wrote.
use plain_rs.Common.{
  ℕ, ◌+◌, ◌/◌, ◌%◌, ◌≤◌, ◌<◌, ◌≡◌, refl, ap, sym, ◌∙◌, Bool, true, false, List, [], ◌∷◌, ◌++◌,
  if◌then◌else◌, Bytes, All, length, drop, join, arith, drop-drop, drop-append, append-nil,
  le→ltb_false,
}
use plain_rs.Common.Parsed.{gives}
use plain_rs.Mdns.Codec.{
  dot, encode_name, write_u16, read_u16, read_question_list, read_questions, high_bit, dns_class_in,
}
use plain_rs.Mdns.Message.{build_query, query_header}
use plain_rs.Mdns.RoundTrip.Names.{
  IsLabel, at_offset, drop_offset, length_offset, read_name-encode_name,
}

pub read_u16-write_u16 :
    (packet : Bytes) (offset v : ℕ) (rest : Bytes)
    → v < 65536
    → drop offset packet ≡ write_u16 v ++ rest
    → read_u16 packet offset ≡ gives v
unfolding read_u16 write_u16
read_u16-write_u16 packet offset v rest small at =
    rw
      (
        at_offset packet offset (v / 256 % 256) (v % 256 ∷ rest) at,
        at_offset packet (offset + 1) (v % 256) rest (drop_offset packet offset _ _ at),
      )
      (ap gives (omega arith))

behind_u16 :
    (packet : Bytes) (offset v : ℕ) (rest : Bytes)
    → drop offset packet ≡ write_u16 v ++ rest
    → drop (offset + 2) packet ≡ rest
unfolding write_u16
behind_u16 packet offset v rest at = sym (drop-drop 2 offset packet) ∙ ap (drop 2) at

size :
    (packet : Bytes) (next qtype class : ℕ)
    → drop next packet ≡ write_u16 qtype ++ write_u16 class
    → next + 4 ≤ length packet
unfolding write_u16
size packet next qtype class at = omega (arith, length_offset packet next _ _ at)

-- One question at an offset.
one_question :
    (ls : List Bytes) (packet : Bytes) (offset qtype class : ℕ)
    → All IsLabel ls
    → offset ≤ length packet
    → qtype < 65536
    → class < 65536
    → drop offset packet ≡ encode_name (join (dot ∷ []) ls) ++ (write_u16 qtype ++ write_u16 class)
    → read_question_list 1 packet offset
      ≡ gives (
          record {
            name = join (dot ∷ []) ls;
            qtype = qtype;
            qclass = class % 0x8000;
            unicast_response_requested = high_bit class;
          }
          ∷ [])
unfolding read_question_list
one_question ls packet offset qtype class h inside small small' at =
    let name = encode_name (join (dot ∷ []) ls) in
    let next = offset + length name in
    let at_type : drop next packet ≡ write_u16 qtype ++ write_u16 class =
      sym (drop-drop (length name) offset packet)
      ∙ ap (drop (length name)) at
      ∙ drop-append name _ in
    let at_class : drop (next + 2) packet ≡ write_u16 class ++ [] =
      behind_u16 packet next qtype (write_u16 class) at_type ∙ sym (append-nil _) in
    rw
      (
        read_name-encode_name ls packet offset 8 _ h inside at,
        le→ltb_false (length packet) (next + 4) (size packet next qtype class at_type),
        read_u16-write_u16 packet next qtype (write_u16 class) small at_type,
        read_u16-write_u16 packet (next + 2) class [] small' at_class,
      )
      refl

header_length : (body : Bytes) → 12 ≤ length (query_header ++ body)
unfolding write_u16
header_length body = omega arith

-- A query's header announces one question.
one_announced :
    (body : Bytes)
    → read_questions (query_header ++ body) ≡ read_question_list 1 (query_header ++ body) 12
unfolding read_questions high_bit write_u16 read_u16
one_announced body = rw (le→ltb_false (length (query_header ++ body)) 12 (header_length body)) refl

class_of : (unicast : Bool) → (if unicast then 0x8001 else dns_class_in) < 65536
class_of true = omega arith
class_of false = omega arith

-- A query for any name of labels, type and wish for a unicast answer is read back as the one question
-- that it asks.
pub read_questions-build_query :
    (ls : List Bytes) (qtype : ℕ) (unicast : Bool)
    → All IsLabel ls
    → qtype < 65536
    → read_questions (build_query (join (dot ∷ []) ls) qtype unicast)
      ≡ gives (
          record {
            name = join (dot ∷ []) ls;
            qtype = qtype;
            qclass = dns_class_in;
            unicast_response_requested = unicast;
          }
          ∷ [])
unfolding build_query write_u16 high_bit
read_questions-build_query ls qtype true h small =
    one_announced _
    ∙ one_question ls _ 12 qtype 0x8001 h (header_length _) small (class_of true) refl
read_questions-build_query ls qtype false h small =
    one_announced _
    ∙ one_question ls _ 12 qtype dns_class_in h (header_length _) small (class_of false) refl
