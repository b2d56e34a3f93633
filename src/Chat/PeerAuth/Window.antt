-- ===== src/Chat/PeerAuth/Window.antt =====
-- src/chat/peer_auth.rs: the times that count as fresh, and the parts of a text.
use plain_rs.Common.{
  ℕ, zero, suc, ◌+◌, ◌≤◌, ◌≡◌, ◌⊎◌, inl, inr, refl, ap, sym, ◌∙◌, Bool, true, false, [], ◌∷◌, ◌++◌,
  Option, none, some, Bytes, Lacks, is_empty, split_once, leb, ◌==◌, Bool-cases, Option-cases,
  some_inj, arith, subst, leb→le, if◌then◌else◌,
}
use plain_rs.Common.Int.{ℤ, pos, negsuc, pos_part, neg_part, ◌-ℤ◌, i64_max}
use plain_rs.Chat.Transport.Answered.{none_not_some}
use plain_rs.Chat.Messages.{bar}
use plain_rs.Chat.PeerAuth.{
  is_fresh, i64_difference, i64_abs, parse_i64, number_of, three_parts, or_zero, non_negative,
  non_positive, some_digits,
}

-- Two times at most five minutes apart.
abbrev pub WithinFiveMinutes : ℤ → ℤ → Type 0
WithinFiveMinutes a b =
    (pos_part a + neg_part b ≤ pos_part b + neg_part a + 300000)
    × (pos_part b + neg_part a ≤ pos_part a + neg_part b + 300000)

-- The second time is 2^63 before the first.
abbrev pub WrapsAround : ℤ → ℤ → Type 0
WrapsAround a b = pos_part a + neg_part b ≡ pos_part b + neg_part a + 9223372036854775808

abbrev IsI64 : ℤ → Type 0
IsI64 t = (pos_part t ≤ i64_max) × (neg_part t ≤ i64_max + 1)

fresh_cases :
    (now : ℕ) (t : ℤ)
    → now + 300000 ≤ i64_max
    → IsI64 t
    → is_fresh (pos now) t ≡ true
    → WithinFiveMinutes (pos now) t ⊎ WrapsAround (pos now) t
unfolding is_fresh i64_difference i64_abs ◌-ℤ◌
fresh_cases now (pos n) h (k, l) e = ground arith
fresh_cases now (negsuc n) h (k, l) e = ground arith

split_once_hit : (c b : ℕ) (bs : Bytes) → (b == c) ≡ true → split_once c (b ∷ bs) ≡ some ([], bs)
unfolding split_once
split_once_hit c b bs e = rw (e, split_once) refl

split_once_on :
    (c b : ℕ) (bs f r : Bytes)
    → (b == c) ≡ false
    → split_once c bs ≡ some (f, r)
    → split_once c (b ∷ bs) ≡ some (b ∷ f, r)
unfolding split_once
split_once_on c b bs f r e q = rw (e, q, split_once) refl

split_once_off :
    (c b : ℕ) (bs : Bytes)
    → (b == c) ≡ false
    → split_once c bs ≡ none
    → split_once c (b ∷ bs) ≡ none
unfolding split_once
split_once_off c b bs e q = rw (e, q, split_once) refl

same_code : (b c : ℕ) → (b == c) ≡ true → b ≡ c
same_code b c h = ground arith

-- A text that splits is its two parts with the character between them, which the first does not have.
abbrev Parts : ℕ → Bytes → Bytes × Bytes → Type 0
Parts c s p = (s ≡ p.0 ++ (c ∷ p.1)) × Lacks c p.0

split_once-Parts : (c : ℕ) (s : Bytes) (p : Bytes × Bytes) → split_once c s ≡ some p → Parts c s p
unfolding split_once
split_once-Parts c [] p h = absurd (none_not_some h)
split_once-Parts c (b ∷ bs) p h = elim (Bool-cases (b == c)) [
  | inl e ↦
      subst (Parts c (b ∷ bs)) (some_inj (sym (split_once_hit c b bs e) ∙ h))
        (ap (λ x. x ∷ bs) (same_code b c e), tt)
  | inr e ↦ elim (Option-cases (split_once c bs)) [
    | inl n ↦ absurd (none_not_some (sym (split_once_off c b bs e n) ∙ h))
    | inr ((f, r), q) ↦
        let (there, lacks) = split_once-Parts c bs (f, r) q in
        subst (Parts c (b ∷ bs)) (some_inj (sym (split_once_on c b bs f r e q) ∙ h))
          (ap (◌∷◌ b) there, (e, lacks))
  ]
]

-- A text of three parts, the first two without a bar.
abbrev pub Joined : Bytes → Bytes × Bytes × Bytes → Type 0
Joined s p = (s ≡ p.0 ++ (bar ∷ (p.1 ++ (bar ∷ p.2)))) × Lacks bar p.0 × Lacks bar p.1

pub three_parts-Joined : (s : Bytes) → is_empty (three_parts s).2 ≡ false → Joined s (three_parts s)
unfolding three_parts
three_parts-Joined s h = elim (Option-cases (split_once bar s)) [
  | inl n ↦ absurd (ground arith)
  | inr ((signature, rest), q) ↦
      let (there, lacks) = split_once-Parts bar s (signature, rest) q in
      elim (Option-cases (split_once bar rest)) [
        | inl n ↦ absurd (ground arith)
        | inr ((ts, json), t) ↦
            let (then_there, then_lacks) = split_once-Parts bar rest (ts, json) t in
            rw (three_parts, q, t)
              (there ∙ ap (λ x. signature ++ (bar ∷ x)) then_there, lacks, then_lacks)
      ]
]

non_negative-IsI64 : (o : Option ℕ) → IsI64 (or_zero (non_negative o))
non_negative-IsI64 none = (omega arith, omega arith)
non_negative-IsI64 (some n) = elim (Bool-cases (leb n i64_max)) [
  | inl e ↦ rw e (leb→le n i64_max e, omega arith)
  | inr e ↦ rw e (omega arith, omega arith)
]

non_positive-IsI64 : (o : Option ℕ) → IsI64 (or_zero (non_positive o))
non_positive-IsI64 none = (omega arith, omega arith)
non_positive-IsI64 (some zero) = (omega arith, omega arith)
non_positive-IsI64 (some (suc n)) = elim (Bool-cases (leb n i64_max)) [
  | inl e ↦ let l = leb→le n i64_max e in rw e (omega arith, omega arith)
  | inr e ↦ rw e (omega arith, omega arith)
]

if_any : {A : Type 0} (P : A → Type 0) (c : Bool) (x y : A) → P x → P y → P (if c then x else y)
if_any P true x y h k = h
if_any P false x y h k = k

parse_i64-IsI64 : (s : Bytes) → IsI64 (or_zero (parse_i64 s))
unfolding parse_i64
parse_i64-IsI64 [] = (omega arith, omega arith)
parse_i64-IsI64 (b ∷ bs) =
    if_any (λ o. IsI64 (or_zero o)) (b == 45) _ _ (non_positive-IsI64 (some_digits bs))
      (if_any (λ o. IsI64 (or_zero o)) (b == 43) _ _ (non_negative-IsI64 (some_digits bs))
        (non_negative-IsI64 (number_of 0 (b ∷ bs))))

-- A time read from a text that is fresh.
pub is_fresh-parse_i64 :
    (now : ℕ) (s : Bytes)
    → now + 300000 ≤ i64_max
    → is_fresh (pos now) (or_zero (parse_i64 s)) ≡ true
    → WithinFiveMinutes (pos now) (or_zero (parse_i64 s))
      ⊎ WrapsAround (pos now) (or_zero (parse_i64 s))
is_fresh-parse_i64 now s h e = fresh_cases now (or_zero (parse_i64 s)) h (parse_i64-IsI64 s) e
