-- ===== src/Chat/PeerAuth/Times.antt =====
-- src/chat/peer_auth.rs: the time of a request, as its sender writes it, and whether it is fresh.
use plain_rs.Common.{
  ℕ, zero, suc, ◌+◌, ◌*◌, ◌/◌, ◌%◌, ◌<◌, ◌≤◌, ◌≡◌, ◌≢◌, ◌⊎◌, inl, inr, subst, refl, sym, ap, ◌∙◌,
  true, false, [], ◌∷◌, some, Bytes, All, is_empty, Lacks, leb, within, arith,
}
use plain_rs.Common.Int.{pos, i64_max, ◌-ℤ◌}
use plain_rs.Chat.Messages.{decimal, digits}
use plain_rs.Chat.PeerAuth.{is_fresh, i64_difference, i64_abs, number_of, parse_i64}

below_or : (n m : ℕ) → (n < m) ⊎ (m ≤ n)
below_or n m = ground arith

pub true_not_false : true ≢ false
true_not_false = λ e. cc

-- Every character of a number is a digit.
abbrev pub AreDigits : Bytes → Type 0
AreDigits = All (λ b. within 48 57 b ≡ true)

digits_small : (fuel n : ℕ) (acc : Bytes) → n < 10 → digits (suc fuel) n acc ≡ (48 + n % 10) ∷ acc
unfolding digits
digits_small fuel n acc h = ground arith

digits_large :
    (fuel n : ℕ) (acc : Bytes)
    → 10 ≤ n
    → digits (suc fuel) n acc ≡ digits fuel (n / 10) ((48 + n % 10) ∷ acc)
unfolding digits
digits_large fuel n acc h = ground arith

is_digit : (n : ℕ) → within 48 57 (48 + n % 10) ≡ true
is_digit n = ground arith

digits-AreDigits : (fuel n : ℕ) (acc : Bytes) → AreDigits acc → AreDigits (digits fuel n acc)
unfolding digits
digits-AreDigits zero n acc h = h
digits-AreDigits (suc fuel) n acc h = elim (below_or n 10) [
  | inl l ↦ subst AreDigits (sym (digits_small fuel n acc l)) (is_digit n, h)
  | inr g ↦
      subst AreDigits (sym (digits_large fuel n acc g))
        (digits-AreDigits fuel (n / 10) ((48 + n % 10) ∷ acc) (is_digit n, h))
]

number_of_step :
    (n m : ℕ) (acc : Bytes) → number_of m ((48 + n % 10) ∷ acc) ≡ number_of (m * 10 + n % 10) acc
unfolding number_of
number_of_step n m acc = rw (is_digit n) (ap (λ k. number_of k acc) (omega arith))

number_of-digits :
    (fuel n : ℕ) (acc : Bytes) → n < fuel → number_of 0 (digits fuel n acc) ≡ number_of n acc
number_of-digits zero n acc h = absurd (omega arith)
number_of-digits (suc fuel) n acc h = elim (below_or n 10) [
  | inl l ↦
      ap (number_of 0) (digits_small fuel n acc l)
      ∙ (number_of_step n 0 acc ∙ ap (λ k. number_of k acc) (omega arith))
  | inr g ↦
      ap (number_of 0) (digits_large fuel n acc g)
      ∙ (number_of-digits fuel (n / 10) ((48 + n % 10) ∷ acc) (omega arith)
          ∙ (number_of_step n (n / 10) acc ∙ ap (λ k. number_of k acc) (omega arith)))
]

pub AreDigits-Lacks : (c : ℕ) (s : Bytes) → within 48 57 c ≡ false → AreDigits s → Lacks c s
AreDigits-Lacks c [] h hs = tt
AreDigits-Lacks c (b ∷ s) h (hb, hs) = (ground arith, AreDigits-Lacks c s h hs)

pub digits_ascii : (s : Bytes) → AreDigits s → All (λ b. b < 0x80) s
digits_ascii [] h = tt
digits_ascii (b ∷ s) (hb, hs) = (ground arith, digits_ascii s hs)

parse_unsigned :
    (n : ℕ) (s : Bytes)
    → AreDigits s
    → is_empty s ≡ false
    → number_of 0 s ≡ some n
    → leb n i64_max ≡ true
    → parse_i64 s ≡ some (pos n)
unfolding parse_i64
parse_unsigned n [] hd he hn hm = absurd (true_not_false he)
parse_unsigned n (b ∷ s) (hb, hs) he hn hm = ground arith

digits_nonempty :
    (fuel n : ℕ) (acc : Bytes) → is_empty acc ≡ false → is_empty (digits fuel n acc) ≡ false
unfolding digits
digits_nonempty zero n acc h = h
digits_nonempty (suc fuel) n acc h = elim (below_or n 10) [
  | inl l ↦ rw (digits_small fuel n acc l) refl
  | inr g ↦
      rw (digits_large fuel n acc g) (digits_nonempty fuel (n / 10) ((48 + n % 10) ∷ acc) refl)
]

digits_some : (fuel n : ℕ) → is_empty (digits (suc fuel) n []) ≡ false
digits_some fuel n = elim (below_or n 10) [
  | inl l ↦ rw (digits_small fuel n [] l) refl
  | inr g ↦ rw (digits_large fuel n [] g) (digits_nonempty fuel (n / 10) ((48 + n % 10) ∷ []) refl)
]

pub decimal-AreDigits : (n : ℕ) → AreDigits (decimal (pos n))
unfolding decimal
decimal-AreDigits n = digits-AreDigits (suc n) n [] tt

pub number_of-decimal : (n : ℕ) → number_of 0 (decimal (pos n)) ≡ some n
unfolding decimal number_of
number_of-decimal n = number_of-digits (suc n) n [] (omega arith)

pub decimal_nonempty : (n : ℕ) → is_empty (decimal (pos n)) ≡ false
unfolding decimal
decimal_nonempty n = digits_some n n

pub parse_i64-decimal : (n : ℕ) → leb n i64_max ≡ true → parse_i64 (decimal (pos n)) ≡ some (pos n)
parse_i64-decimal n h =
    parse_unsigned n (decimal (pos n)) (decimal-AreDigits n) (decimal_nonempty n)
      (number_of-decimal n) h

-- A time within five minutes is fresh.
pub is_fresh-pos :
    (now ts : ℕ)
    → now ≤ i64_max
    → ts ≤ i64_max
    → now ≤ ts + 300000
    → ts ≤ now + 300000
    → is_fresh (pos now) (pos ts) ≡ true
unfolding is_fresh i64_difference i64_abs ◌-ℤ◌
is_fresh-pos now ts hn ht ha hb = elim (below_or now ts) [
  | inl l ↦ ground arith
  | inr g ↦ ground arith
]
