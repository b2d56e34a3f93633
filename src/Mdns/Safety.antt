-- ===== src/Mdns/Safety.antt =====
-- The bounds of the reads of src/mdns/packet_codec.rs, on any packet.
use plain_rs.Common.{
  ℕ, zero, suc, ◌+◌, ◌≤◌, ◌||◌, List, All, [], Bytes, length, ltb, arith, ltb→lt, bit_and, ◌==◌,
  le→ltb_false, ltb_false→le,
}
use plain_rs.Common.Parsed.{
  Parsed, index, Holds, Safe, Holds-bind, index-Safe, slice, slice-Holds, Holds-if, Safe-bind,
}
use plain_rs.Mdns.Codec.{
  read_u16, read_u32, follow, name_loop, read_name_within, read_name, read_question_list,
  read_questions, MdnsRecord, MdnsParsedResponse, high_bit,
}
use plain_rs.Mdns.Message.{skip_questions, read_records, parse_response}

-- A record whose data lies in the packet it points to.
abbrev pub Fits : MdnsRecord → Type 0
Fits r = r.rdata_start + r.rdata_length ≤ length r.packet

module _ (packet : Bytes) where
  -- An offset in the packet, or at its end, behind what was read.
  abbrev pub Inside : {A : Type 0} → (A × ℕ) → Type 0
  Inside (a, next) = next ≤ length packet

  pub read_u16-Safe : (i : ℕ) → i + 2 ≤ length packet → Safe (read_u16 packet i)
  unfolding read_u16
  read_u16-Safe i h =
      Safe-bind _ (index packet i) _ (index-Safe packet i (omega arith))
        λ a. Safe-bind _ (index packet (i + 1)) _ (index-Safe packet (i + 1) (omega arith)) λ b. tt

  pub read_u32-Safe : (i : ℕ) → i + 4 ≤ length packet → Safe (read_u32 packet i)
  unfolding read_u32
  read_u32-Safe i h = Safe-bind _ (index packet i) _ (index-Safe packet i (omega arith)) λ a.
      Safe-bind _ (index packet (i + 1)) _ (index-Safe packet (i + 1) (omega arith)) λ b.
        Safe-bind _ (index packet (i + 2)) _ (index-Safe packet (i + 2) (omega arith)) λ c.
          Safe-bind _ (index packet (i + 3)) _ (index-Safe packet (i + 3) (omega arith)) λ d. tt

  module _ (pointed : ℕ → Parsed (Bytes × ℕ)) (safe : (p : ℕ) → Holds Inside (pointed p)) where
    follow-Inside :
        (labels : List Bytes) (offset len : ℕ)
        → Holds Inside (follow pointed packet labels offset len)
    unfolding follow
    follow-Inside labels offset len =
        Holds-if Inside (ltb (offset + 1) (length packet)) _ _
          (λ t.
            let inside = ltb→lt (offset + 1) (length packet) t in
            Safe-bind _ (index packet (offset + 1)) _ (index-Safe packet (offset + 1) inside)
              λ low. Holds-bind Inside Inside (pointed _) _ (safe _) λ r q. omega arith)
          (λ f. tt)

    pub name_loop-Inside :
        (fuel : ℕ) (labels : List Bytes) (offset : ℕ)
        → length packet ≤ offset + fuel
        → Holds Inside (name_loop pointed packet fuel labels offset)
    unfolding name_loop
    name_loop-Inside zero labels offset h =
        rw (le→ltb_false offset (length packet) (omega arith)) tt
    name_loop-Inside (suc fuel) labels offset h =
        Holds-if Inside (ltb offset (length packet)) _ _
          (λ t.
            let inside = ltb→lt offset (length packet) t in
            Safe-bind _ (index packet offset) _ (index-Safe packet offset inside) λ len.
              Holds-if Inside (len == 0) _ _ (λ e. omega arith)
                λ e.
                  Holds-if Inside (bit_and len 0xC0 == 0xC0) _ _
                    (λ c. follow-Inside labels offset len)
                    λ c.
                      Holds-if Inside (ltb (length packet) (offset + 1 + len)) _ _ (λ l. tt)
                        λ l.
                          let fits = ltb_false→le (length packet) (offset + 1 + len) l in
                          Holds-bind _ Inside (slice packet (offset + 1) len) _
                            (slice-Holds packet (offset + 1) len fits)
                            λ s e. name_loop-Inside fuel _ (offset + 1 + len) (omega arith))
          (λ t. tt)

  read_name_within-Inside : (depth start : ℕ) → Holds Inside (read_name_within depth packet start)
  unfolding read_name_within
  read_name_within-Inside zero start = tt
  read_name_within-Inside (suc depth) start =
      Holds-if Inside (ltb start (length packet)) _ _
        (λ l.
          name_loop-Inside (read_name_within depth packet) (read_name_within-Inside depth) _ []
            start (omega arith))
        (λ l. tt)

  -- The reader of names comes to an end and reads no byte and no label outside of the packet, wherever
  -- it starts and whatever the bytes are, and the offset that it gives is in the packet or right behind
  -- it.
  pub read_name-Inside :
      (start : ℕ) → Holds (λ (r : Bytes × ℕ). r.1 ≤ length packet) (read_name packet start)
  read_name-Inside = read_name_within-Inside 9

  read_question_list-Safe : (count offset : ℕ) → Safe (read_question_list count packet offset)
  unfolding read_question_list
  read_question_list-Safe zero offset = tt
  read_question_list-Safe (suc count) offset =
      Holds-bind Inside _ (read_name packet offset) _ (read_name-Inside offset) λ r inside.
        Holds-if _ (ltb (length packet) (r.1 + 4)) _ _ (λ l. tt)
          λ l.
            let fits = ltb_false→le (length packet) (r.1 + 4) l in
            Safe-bind _ (read_u16 packet r.1) _ (read_u16-Safe r.1 (omega arith)) λ qtype.
              Safe-bind _ (read_u16 packet (r.1 + 2)) _ (read_u16-Safe (r.1 + 2) (omega arith))
                λ class.
                  Safe-bind _ (read_question_list count packet (r.1 + 4)) _
                    (read_question_list-Safe count (r.1 + 4)) λ qs. tt

  -- No packet makes the parser of queries index or slice out of bounds or go on without end.
  pub read_questions-Safe : Safe (read_questions packet)
  unfolding read_questions
  read_questions-Safe =
      Holds-if _ (ltb (length packet) 12) _ _ (λ l. tt)
        λ l.
          let long = ltb_false→le (length packet) 12 l in
          Safe-bind _ (read_u16 packet 2) _ (read_u16-Safe 2 (omega arith)) λ flags.
            Safe-bind _ (read_u16 packet 4) _ (read_u16-Safe 4 (omega arith)) λ count.
              Holds-if _ (high_bit flags || count == 0) _ _ (λ c. tt)
                λ c. read_question_list-Safe count 12

  skip_questions-Inside :
      (count offset : ℕ)
      → offset ≤ length packet
      → Holds (λ next. next ≤ length packet) (skip_questions count packet offset)
  unfolding skip_questions
  skip_questions-Inside zero offset h = h
  skip_questions-Inside (suc count) offset h =
      Holds-bind Inside _ (read_name packet offset) _ (read_name-Inside offset) λ r inside.
        Holds-if _ (ltb (length packet) (r.1 + 4)) _ _ (λ l. tt)
          λ l. skip_questions-Inside count (r.1 + 4) (ltb_false→le (length packet) (r.1 + 4) l)

  abbrev Records : List MdnsRecord × ℕ → Type 0
  Records r = All Fits r.0 × (r.1 ≤ length packet)

  read_records-Records :
      (count offset : ℕ) → offset ≤ length packet → Holds Records (read_records count packet offset)
  unfolding read_records
  read_records-Records zero offset h = (tt, h)
  read_records-Records (suc count) offset h =
      Holds-bind Inside _ (read_name packet offset) _ (read_name-Inside offset) λ r inside.
        Holds-if _ (ltb (length packet) (r.1 + 10)) _ _ (λ l. tt)
          λ l.
            let fits = ltb_false→le (length packet) (r.1 + 10) l in
            Safe-bind _ (read_u16 packet r.1) _ (read_u16-Safe r.1 (omega arith)) λ record_type.
              Safe-bind _ (read_u32 packet (r.1 + 4)) _ (read_u32-Safe (r.1 + 4) (omega arith))
                λ ttl.
                  Safe-bind _ (read_u16 packet (r.1 + 8)) _ (read_u16-Safe (r.1 + 8) (omega arith))
                    λ len.
                      Holds-if _ (ltb (length packet) (r.1 + 10 + len)) _ _ (λ l. tt)
                        λ l.
                          let inside' = ltb_false→le (length packet) (r.1 + 10 + len) l in
                          Holds-bind Records _ (read_records count packet (r.1 + 10 + len)) _
                            (read_records-Records count (r.1 + 10 + len) inside')
                            λ rs all. ((inside', all.0), all.1)

  -- No packet makes the parser of responses index or slice out of bounds or go on without end, and the
  -- data of every record that it gives lies in the packet.
  pub parse_response-Fits :
      Holds
        (λ (r : MdnsParsedResponse). All Fits r.answers × All Fits r.additional)
        (parse_response packet)
  unfolding parse_response
  parse_response-Fits =
      Holds-if _ (ltb (length packet) 12) _ _ (λ l. tt)
        λ l.
          let long = ltb_false→le (length packet) 12 l in
          Safe-bind _ (read_u16 packet 2) _ (read_u16-Safe 2 (omega arith)) λ flags.
            Safe-bind _ (read_u16 packet 4) _ (read_u16-Safe 4 (omega arith)) λ qd.
              Safe-bind _ (read_u16 packet 6) _ (read_u16-Safe 6 (omega arith)) λ an.
                Safe-bind _ (read_u16 packet 8) _ (read_u16-Safe 8 (omega arith)) λ ns.
                  Safe-bind _ (read_u16 packet 10) _ (read_u16-Safe 10 (omega arith)) λ ar.
                    Holds-bind _ _ (skip_questions qd packet 12) _
                      (skip_questions-Inside qd 12 long)
                      λ o h.
                        Holds-bind Records _ (read_records an packet o) _
                          (read_records-Records an o h)
                          λ a ha.
                            Holds-bind Records _ (read_records ns packet a.1) _
                              (read_records-Records ns a.1 ha.1)
                              λ b hb.
                                Holds-bind Records _ (read_records ar packet b.1) _
                                  (read_records-Records ar b.1 hb.1) λ c hc. (ha.0, hc.0)
