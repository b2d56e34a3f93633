-- ===== src/Mdns/Codec.antt =====
-- src/mdns/packet_codec.rs: names, questions and records of DNS messages, written and read. Where the
-- source writes `|` its operands have no bit in common, and the sum stands for it.
use plain_rs.Common.{
  ℕ, zero, suc, ◌+◌, ◌*◌, ◌/◌, ◌%◌, Bool, not, ◌||◌, List, [], ◌∷◌, ◌++◌, if◌then◌else◌, Bytes,
  length, filter, is_empty, ltb, ◌==◌, split, join, bit_and,
}
use plain_rs.Utils.Utf8.{from_utf8_lossy}
use plain_rs.Common.Parsed.{Parsed, spins, fails, gives, ◌>>=◌, index, slice}

abbrev pub dns_class_in : ℕ
dns_class_in = 0x0001

abbrev pub type_a : ℕ
type_a = 0x0001

abbrev pub type_any : ℕ
type_any = 0x00FF

abbrev pub type_ptr : ℕ
type_ptr = 0x000C

abbrev pub type_txt : ℕ
type_txt = 0x0010

abbrev pub type_srv : ℕ
type_srv = 0x0021

abbrev pub dns_response_flags : ℕ
dns_response_flags = 0x8400

abbrev pub dns_cache_flush_class_in : ℕ
dns_cache_flush_class_in = 0x8001

abbrev pub ttl_seconds : ℕ
ttl_seconds = 120

pub record MdnsQuestion : Type 0 where
  pub name : Bytes
  pub qtype : ℕ
  pub qclass : ℕ
  pub unicast_response_requested : Bool

pub record MdnsRecord : Type 0 where
  pub name : Bytes
  pub record_type : ℕ
  pub ttl : ℕ
  pub packet : Bytes
  pub rdata_start : ℕ
  pub rdata_length : ℕ

pub record MdnsParsedResponse : Type 0 where
  pub flags : ℕ
  pub answers : List MdnsRecord
  pub additional : List MdnsRecord

abbrev pub dot : ℕ
dot = b'.'

unfoldable pub write_u16 : ℕ → Bytes
write_u16 v = v / 256 % 256 ∷ v % 256 ∷ []

unfoldable pub write_u32 : ℕ → Bytes
write_u32 v = v / 16777216 % 256 ∷ v / 65536 % 256 ∷ v / 256 % 256 ∷ v % 256 ∷ []

unfoldable pub read_u16 : Bytes → ℕ → Parsed ℕ
read_u16 packet offset = do
  high ← index packet offset
  low ← index packet (offset + 1)
  gives (high * 256 + low)

unfoldable pub read_u32 : Bytes → ℕ → Parsed ℕ
read_u32 packet offset = do
  a ← index packet offset
  b ← index packet (offset + 1)
  c ← index packet (offset + 2)
  d ← index packet (offset + 3)
  gives (a * 16777216 + b * 65536 + c * 256 + d)

-- The labels of a name.
abbrev pub labels_of : Bytes → List Bytes
labels_of name = filter (λ l. not (is_empty l)) (split dot name)

unfoldable pub encode_labels : List Bytes → Bytes
encode_labels [] = 0 ∷ []
encode_labels (l ∷ ls) = length l % 256 ∷ (l ++ encode_labels ls)

unfoldable pub encode_name : Bytes → Bytes
encode_name name = encode_labels (labels_of name)

-- A compression pointer at `offset` ends the name.
unfoldable pub follow : (ℕ → Parsed (Bytes × ℕ)) → Bytes → List Bytes → ℕ → ℕ → Parsed (Bytes × ℕ)
follow pointed packet labels offset len =
    let jump : Parsed (Bytes × ℕ) = do
      low ← index packet (offset + 1)
      (name, next) ← pointed (bit_and len 0x3F * 256 + low)
      gives (join (dot ∷ []) (labels ++ labels_of name), offset + 2)
    in if ltb (offset + 1) (length packet) then jump else fails

-- The loop of `read_name` at `offset`; every round moves on, so `length packet` rounds reach the end.
unfoldable pub name_loop :
    (ℕ → Parsed (Bytes × ℕ)) → Bytes → ℕ → List Bytes → ℕ → Parsed (Bytes × ℕ)
name_loop pointed packet zero labels offset = if ltb offset (length packet) then spins else fails
name_loop pointed packet (suc fuel) labels offset =
    let label : ℕ → Parsed (Bytes × ℕ) = λ len. slice packet (offset + 1) len >>= λ text.
    name_loop pointed packet fuel (labels ++ (from_utf8_lossy text ∷ [])) (offset + 1 + len) in
    let round : Parsed (Bytes × ℕ) = do
      len ← index packet offset
      if len == 0
          then gives (join (dot ∷ []) labels, offset + 1)
          else if bit_and len 0xC0 == 0xC0
          then follow pointed packet labels offset len
          else if ltb (length packet) (offset + 1 + len)
          then fails
          else label len
    in if ltb offset (length packet) then round else fails

-- `read_name` with `depth` calls left: the source starts with depth 0 and stops beyond 8.
unfoldable pub read_name_within : ℕ → Bytes → ℕ → Parsed (Bytes × ℕ)
read_name_within zero packet start = fails
read_name_within (suc depth) packet start =
    if ltb start (length packet)
    then name_loop (read_name_within depth packet) packet (length packet) [] start
    else fails

abbrev pub read_name : Bytes → ℕ → Parsed (Bytes × ℕ)
read_name = read_name_within 9

-- Bit 15 of a 16-bit number: the flag of a response, or of a class.
unfoldable pub high_bit : ℕ → Bool
high_bit flags = not (flags / 0x8000 % 2 == 0)

unfoldable pub read_question_list : ℕ → Bytes → ℕ → Parsed (List MdnsQuestion)
read_question_list zero packet offset = gives []
read_question_list (suc count) packet offset = do
  (qname, next) ← read_name packet offset
  let body : Parsed (List MdnsQuestion) = do
    qtype ← read_u16 packet next
    qclass_raw ← read_u16 packet (next + 2)
    questions ← read_question_list count packet (next + 4)
    gives (
        record {
          name = qname;
          qtype = qtype;
          qclass = qclass_raw % 0x8000;
          unicast_response_requested = high_bit qclass_raw;
        }
        ∷ questions)
  if ltb (length packet) (next + 4) then fails else body

unfoldable pub read_questions : Bytes → Parsed (List MdnsQuestion)
read_questions packet =
    let body : Parsed (List MdnsQuestion) = do
      flags ← read_u16 packet 2
      qd_count ← read_u16 packet 4
      if high_bit flags || qd_count == 0 then fails else read_question_list qd_count packet 12
    in if ltb (length packet) 12 then fails else body
