-- ===== src/Mdns/RoundTrip/Names.antt =====
-- `read_name` of src/mdns/packet_codec.rs on a name that `encode_name` wrote.
use plain_rs.Common.{
  ℕ, zero, suc, ◌+◌, ◌-◌, ◌%◌, ◌≤◌, ◌<◌, ◌≡◌, refl, ap, sym, ◌∙◌, false, List, [], ◌∷◌, ◌++◌, some,
  Bytes, All, length, get_elem?, drop, filter, is_empty, ◌==◌, split, join, arith, Lacks,
  append_assoc, append-nil, bit_and, length-append, length-drop, drop-drop, drop-append,
  take-append, split-append, split-Lacks, le→ltb_false, lt→ltb,
}
use plain_rs.Common.Bits.{and_0xC0}
use plain_rs.Utils.Utf8.{IsUtf8, from_utf8_lossy_id}
use plain_rs.Common.Parsed.{Parsed, gives, slice_inside}
use plain_rs.Mdns.Codec.{dot, labels_of, encode_labels, encode_name, name_loop, read_name_within}

-- A label as names hold it: not empty, shorter than the 64 bytes where pointers begin, without dots.
abbrev pub IsLabel : Bytes → Type 0
IsLabel l = (1 ≤ length l) × (length l < 64) × (Lacks dot l) × (IsUtf8 l)

not_empty : (l : Bytes) → 1 ≤ length l → is_empty l ≡ false
not_empty [] h = absurd (omega arith)
not_empty (b ∷ l) h = refl

pub labels_of-join : (ls : List Bytes) → All IsLabel ls → labels_of (join (dot ∷ []) ls) ≡ ls
unfolding join
labels_of-join [] h = unfold split in refl
labels_of-join (l ∷ []) ((some_byte, short, dots, text), hs) =
    rw (split-Lacks dot l dots, not_empty l some_byte, filter) refl
labels_of-join (l ∷ k ∷ ls) ((some_byte, short, dots, text), hs) =
    rw (split-append dot l (join (dot ∷ []) (k ∷ ls)) dots, not_empty l some_byte, filter)
      (ap (◌∷◌ l) (labels_of-join (k ∷ ls) hs))

-- What stands at an offset of a packet.
pub at_offset :
    (packet : Bytes) (offset b : ℕ) (rest : Bytes)
    → drop offset packet ≡ b ∷ rest
    → get_elem? packet offset ≡ some b
at_offset [] zero b rest h = cc
at_offset [] (suc offset) b rest h = cc
at_offset (x ∷ packet) zero b rest h = ground arith
at_offset (x ∷ packet) (suc offset) b rest h = at_offset packet offset b rest h

pub length_offset :
    (packet : Bytes) (offset b : ℕ) (rest : Bytes)
    → drop offset packet ≡ b ∷ rest
    → length packet ≡ offset + 1 + length rest
length_offset [] zero b rest h = cc
length_offset [] (suc offset) b rest h = cc
length_offset (x ∷ packet) zero b rest h =
    let same : suc (length packet) ≡ suc (length rest) = ap length h in omega arith
length_offset (x ∷ packet) (suc offset) b rest h =
    omega (arith, length_offset packet offset b rest h)

pub drop_offset :
    (packet : Bytes) (offset b : ℕ) (rest : Bytes)
    → drop offset packet ≡ b ∷ rest
    → drop (offset + 1) packet ≡ rest
drop_offset packet offset b rest h = sym (drop-drop 1 offset packet) ∙ ap (drop 1) h

small_label : (n : ℕ) → n < 64 → (bit_and n 0xC0 == 0xC0) ≡ false
small_label n h = rw (and_0xC0 n (omega arith)) (ground arith)

small_mod : (n : ℕ) → n < 64 → n % 256 ≡ n
small_mod n h = omega arith

nonzero : (n : ℕ) → 1 ≤ n → (n == 0) ≡ false
nonzero n h = ground arith

module _ (pointed : ℕ → Parsed (Bytes × ℕ)) (packet : Bytes) where
  name_loop_label :
      (fuel offset : ℕ) (labels : List Bytes) (l rest : Bytes)
      → IsLabel l
      → drop offset packet ≡ length l % 256 ∷ (l ++ rest)
      → name_loop pointed packet (suc fuel) labels offset
        ≡ name_loop pointed packet fuel (labels ++ (l ∷ [])) (offset + 1 + length l)
  unfolding name_loop
  name_loop_label fuel offset labels l rest (some_byte, short, dots, text) at =
      let size = length_offset packet offset (length l % 256) (l ++ rest) at in
      let fits : offset + 1 + length l ≤ length packet =
        omega (arith, size, length-append l rest) in
      rw
        (
          lt→ltb offset (length packet) (omega (arith, size)),
          at_offset packet offset (length l % 256) (l ++ rest) at,
          small_mod (length l) short,
          nonzero (length l) some_byte,
          small_label (length l) short,
          le→ltb_false (length packet) (offset + 1 + length l) fits,
          slice_inside packet (offset + 1) (length l) fits,
          drop_offset packet offset (length l % 256) (l ++ rest) at,
          take-append l rest,
          from_utf8_lossy_id text,
        )
        refl

  name_loop_end :
      (fuel offset : ℕ) (labels : List Bytes) (rest : Bytes)
      → drop offset packet ≡ 0 ∷ rest
      → name_loop pointed packet (suc fuel) labels offset
        ≡ gives (join (dot ∷ []) (labels ++ []), offset + 1)
  unfolding name_loop
  name_loop_end fuel offset labels rest at =
      rw
        (
          lt→ltb offset (length packet) (omega (arith, length_offset packet offset 0 rest at)),
          at_offset packet offset 0 rest at,
          append-nil labels,
        )
        refl

  name_loop-encode_labels :
      (ls : List Bytes) (fuel offset : ℕ) (labels : List Bytes) (rest : Bytes)
      → All IsLabel ls
      → drop offset packet ≡ encode_labels ls ++ rest
      → length ls < fuel
      → name_loop pointed packet fuel labels offset
        ≡ gives (join (dot ∷ []) (labels ++ ls), offset + length (encode_labels ls))
  unfolding encode_labels
  name_loop-encode_labels ls zero offset labels rest h at lt = absurd (omega arith)
  name_loop-encode_labels [] (suc fuel) offset labels rest h at lt =
      name_loop_end fuel offset labels rest at
  name_loop-encode_labels (l ∷ ls) (suc fuel) offset labels rest (h, hs) at lt =
      let assoc : encode_labels (l ∷ ls) ++ rest
          ≡ length l % 256 ∷ (l ++ (encode_labels ls ++ rest)) =
        ap (◌∷◌ (length l % 256)) (append_assoc l (encode_labels ls) rest) in
      let there : drop (offset + 1 + length l) packet ≡ encode_labels ls ++ rest =
        sym (drop-drop (length l) (offset + 1) packet)
        ∙ ap (drop (length l)) (drop_offset packet offset _ _ (at ∙ assoc))
        ∙ drop-append l (encode_labels ls ++ rest) in
      name_loop_label fuel offset labels l (encode_labels ls ++ rest) h (at ∙ assoc)
      ∙ name_loop-encode_labels ls fuel (offset + 1 + length l) (labels ++ (l ∷ [])) rest hs there
          (omega arith)
      ∙ rw (append_assoc labels (l ∷ []) ls) (
          ap (λ end. gives (join (dot ∷ []) (labels ++ (l ∷ ls)), end))
            (omega (arith, length-append l (encode_labels ls))))

-- Every label takes a byte, and the end one more.
length-encode_labels : (ls : List Bytes) → length ls < length (encode_labels ls)
unfolding encode_labels
length-encode_labels [] = omega arith
length-encode_labels (l ∷ ls) =
    omega (arith, length-encode_labels ls, length-append l (encode_labels ls))

-- A name of labels that stands in a packet as `encode_name` writes it is read back, and the reader
-- stops right behind it, within any number of calls for pointers.
pub read_name-encode_name :
    (ls : List Bytes) (packet : Bytes) (start depth : ℕ) (rest : Bytes)
    → All IsLabel ls
    → start ≤ length packet
    → drop start packet ≡ encode_name (join (dot ∷ []) ls) ++ rest
    → read_name_within (suc depth) packet start
      ≡ gives (join (dot ∷ []) ls, start + length (encode_name (join (dot ∷ []) ls)))
unfolding read_name_within encode_name
read_name-encode_name ls packet start depth rest h inside at =
    let wire : encode_name (join (dot ∷ []) ls) ≡ encode_labels ls =
      ap encode_labels (labels_of-join ls h) in
    let at' : drop start packet ≡ encode_labels ls ++ rest = at ∙ ap (λ w. w ++ rest) wire in
    let size : length packet - start ≡ length (encode_labels ls) + length rest =
      sym (length-drop start packet) ∙ ap length at' ∙ length-append (encode_labels ls) rest in
    let some_label = length-encode_labels ls in
    rw (lt→ltb start (length packet) (omega arith), wire)
      (name_loop-encode_labels (read_name_within depth packet) packet ls (length packet) start []
        rest h at' (omega arith))
