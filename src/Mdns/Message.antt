-- ===== src/Mdns/Message.antt =====
-- src/mdns/packet_codec.rs: whole messages, built and parsed.
use plain_rs.Common.{
  ℕ, zero, suc, ◌+◌, ◌*◌, ◌-◌, ◌%◌, Bool, false, ◌&&◌, ◌||◌, List, [], ◌∷◌, ◌++◌, map, Option, none,
  some, if◌then◌else◌, Bytes, length, filter, is_empty, ltb, leb, ◌==◌, split, any, within, str_eq,
}
use plain_rs.Common.Parsed.{Parsed, fails, gives, ◌>>=◌}
use plain_rs.Mdns.Codec.{
  dns_class_in, type_a, type_any, type_ptr, type_txt, type_srv, dns_response_flags,
  dns_cache_flush_class_in, ttl_seconds, MdnsQuestion, MdnsRecord, MdnsParsedResponse, dot,
  write_u16, write_u32, read_u16, read_u32, encode_name, read_name, read_questions,
}

abbrev pub query_header : Bytes
query_header =
    write_u16 0 ++ (write_u16 0 ++ (write_u16 1 ++ (write_u16 0 ++ (write_u16 0 ++ write_u16 0))))

unfoldable pub build_query : Bytes → ℕ → Bool → Bytes
build_query name qtype unicast_response =
    query_header
    ++ (encode_name name
        ++ (write_u16 qtype ++ write_u16 (if unicast_response then 0x8001 else dns_class_in)))

abbrev pub build_ptr_query : Bytes → Bytes
build_ptr_query service_type = build_query service_type type_ptr false

abbrev pub instance_query : ℕ → Bytes → Bytes → Bytes
instance_query qtype instance_name service_type =
    build_query (instance_name ++ (dot ∷ service_type)) qtype false

abbrev pub build_srv_query : Bytes → Bytes → Bytes
build_srv_query = instance_query type_srv

abbrev pub build_txt_query : Bytes → Bytes → Bytes
build_txt_query = instance_query type_txt

-- The counts are cut to 16 bits.
unfoldable pub write_header : ℕ → ℕ → Bytes
write_header answers additional =
    write_u16 0
    ++ (write_u16 dns_response_flags
        ++ (write_u16 0
            ++ (write_u16 (answers % 65536) ++ (write_u16 0 ++ write_u16 (additional % 65536)))))

unfoldable pub write_record : Bytes → ℕ → ℕ → ℕ → Bytes → Bytes
write_record name record_type cls ttl rdata =
    name
    ++ (write_u16 record_type
        ++ (write_u16 cls ++ (write_u32 ttl ++ (write_u16 (length rdata % 65536) ++ rdata))))

-- `str::parse::<u8>`: an optional sign and decimal digits, up to 255.
unfoldable digits_from : ℕ → Bytes → Option ℕ
digits_from acc [] = some acc
digits_from acc (c ∷ cs) =
    let rest = digits_from (acc * 10 + (c - 48)) cs in
    if within b'0' b'9' c && leb (acc * 10 + (c - 48)) 255 then rest else none

unfoldable pub parse_u8 : Bytes → Option ℕ
unfolding digits_from
parse_u8 [] = none
parse_u8 (c ∷ []) = digits_from 0 (c ∷ [])
parse_u8 (c ∷ d ∷ cs) = if c == b'+' then digits_from 0 (d ∷ cs) else digits_from 0 (c ∷ d ∷ cs)

unfoldable pub octets : List Bytes → Bytes
octets [] = []
octets (p ∷ ps) = elim (parse_u8 p) [ none ↦ octets ps | some b ↦ b ∷ octets ps ]

unfoldable pub ip_to_bytes : Bytes → Bytes
ip_to_bytes ip = octets (split dot ip)

unfoldable pub to_ascii_lowercase : ℕ → ℕ
to_ascii_lowercase c = if within b'A' b'Z' c then c + 32 else c

abbrev pub eq_ignore_ascii_case : Bytes → Bytes → Bool
eq_ignore_ascii_case a b = str_eq (map to_ascii_lowercase a) (map to_ascii_lowercase b)

pub record MdnsResponse : Type 0 where
  pub bytes : Bytes
  pub matched_questions : List MdnsQuestion

-- `MdnsResponse::unicast_response_requested`
abbrev pub unicast_requested : MdnsResponse → Bool
unicast_requested r = any (λ (q : MdnsQuestion). q.unicast_response_requested) r.matched_questions

unfoldable pub matches : Bytes → MdnsQuestion → Bool
matches hostname q =
    eq_ignore_ascii_case q.name hostname
    && (q.qclass == dns_class_in && (q.qtype == type_a || q.qtype == type_any))

unfoldable pub a_records : Bytes → List Bytes → Bytes
a_records name [] = []
a_records name (ip ∷ ips) =
    write_record name type_a dns_cache_flush_class_in ttl_seconds (ip_to_bytes ip)
    ++ a_records name ips

unfoldable pub build_response_if_match : Bytes → Bytes → List Bytes → Parsed MdnsResponse
build_response_if_match query hostname ips =
    let body : Parsed MdnsResponse = do
      questions ← read_questions query
      let matched = filter (matches hostname) questions
      let response : Parsed MdnsResponse = gives (record {
        bytes = write_header (length ips) 0 ++ a_records (encode_name hostname) ips;
        matched_questions = matched;
      })
      if is_empty matched then fails else response
    in if is_empty ips then fails else body

unfoldable pub skip_questions : ℕ → Bytes → ℕ → Parsed ℕ
skip_questions zero packet offset = gives offset
skip_questions (suc count) packet offset = do
  (name, next) ← read_name packet offset
  let rest : Parsed ℕ = skip_questions count packet (next + 4)
  if ltb (length packet) (next + 4) then fails else rest

unfoldable pub read_records : ℕ → Bytes → ℕ → Parsed (List MdnsRecord × ℕ)
read_records zero packet offset = gives ([], offset)
read_records (suc count) packet offset = do
  (name, next) ← read_name packet offset
  let body : Parsed (List MdnsRecord × ℕ) = do
    record_type ← read_u16 packet next
    ttl ← read_u32 packet (next + 4)
    rdlen ← read_u16 packet (next + 8)
    let this : MdnsRecord = record {
      name = name;
      record_type = record_type;
      ttl = ttl;
      packet = packet;
      rdata_start = next + 10;
      rdata_length = rdlen;
    }
    let more : Parsed (List MdnsRecord × ℕ) = do
      (records, end) ← read_records count packet (next + 10 + rdlen)
      gives (this ∷ records, end)
    if ltb (length packet) (next + 10 + rdlen) then fails else more
  if ltb (length packet) (next + 10) then fails else body

unfoldable pub parse_response : Bytes → Parsed MdnsParsedResponse
parse_response packet =
    let body : Parsed MdnsParsedResponse = do
      flags ← read_u16 packet 2
      qd_count ← read_u16 packet 4
      an_count ← read_u16 packet 6
      ns_count ← read_u16 packet 8
      ar_count ← read_u16 packet 10
      start ← skip_questions qd_count packet 12
      (answers, after_answers) ← read_records an_count packet start
      (authority, after_authority) ← read_records ns_count packet after_answers
      (additional, end) ← read_records ar_count packet after_authority
      gives (record { flags = flags; answers = answers; additional = additional })
    in if ltb (length packet) 12 then fails else body
