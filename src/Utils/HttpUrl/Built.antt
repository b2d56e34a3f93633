-- ===== src/Utils/HttpUrl/Built.antt =====
-- src/utils/http_url.rs: an address that `build_url` writes, read by `parse_http_url`.
use plain_rs.Common.{
  ℕ, ◌≤◌, ◌≡◌, refl, ◌∙◌, Bool, true, false, ◌||◌, [], ◌∷◌, ◌++◌, Option, none, some, Bytes, codes,
  str_eq, starts_with, is_empty, split_once, trim, All, All-append, append_assoc, Bool-cases, inl,
  inr, Lacks, leb, ◌==◌, if◌then◌else◌, arith,
}
use plain_rs.Common.Int.{pos}
use plain_rs.Chat.Messages.{decimal}
use plain_rs.Chat.PeerAuth.{number_of}
use plain_rs.Chat.PeerAuth.Times.{
  AreDigits, AreDigits-Lacks, decimal-AreDigits, decimal_nonempty, number_of-decimal,
  true_not_false,
}
use plain_rs.Chat.Transport.{build_url}
use plain_rs.Utils.HttpUrl.{
  scheme_end, auth_end, ends_authority, rsplit_once, parse_u16, split_host_port, unbracketed,
  parse_http_url, to_ascii_lowercase, eq_ignore_ascii_case, before, behind,
}

auth_end-append :
    (x y : Bytes)
    → All (λ b. ends_authority b ≡ false) x
    → auth_end (x ++ (b'/' ∷ y)) ≡ (x, b'/' ∷ y)
unfolding auth_end
auth_end-append [] y h = refl
auth_end-append (b ∷ x) y (h, hs) = rw (h, auth_end-append x y hs) refl

rsplit_once-Lacks : (c : ℕ) (x : Bytes) → Lacks c x → rsplit_once c x ≡ none
unfolding rsplit_once
rsplit_once-Lacks c [] h = refl
rsplit_once-Lacks c (b ∷ x) (h, hs) = rw (rsplit_once-Lacks c x hs, h) refl

rsplit_once-append :
    (c : ℕ) (x y : Bytes) → (c == c) ≡ true → Lacks c y → rsplit_once c (x ++ (c ∷ y)) ≡ some (x, y)
unfolding rsplit_once
rsplit_once-append c [] y e h = rw (rsplit_once-Lacks c y h, e) refl
rsplit_once-append c (b ∷ x) y e h = rw (rsplit_once-append c x y e h) refl

split_once-Lacks : (c : ℕ) (x : Bytes) → Lacks c x → split_once c x ≡ none
unfolding split_once
split_once-Lacks c [] h = refl
split_once-Lacks c (b ∷ x) (h, hs) = rw (h, split_once-Lacks c x hs) refl

abbrev pub scheme_of : Bool → Bytes
scheme_of true = codes "https"
scheme_of false = codes "http"

scheme_end-scheme_of :
    (secure : Bool) (rest : Bytes)
    → scheme_end (scheme_of secure ++ (codes "://" ++ rest)) ≡ some (scheme_of secure, rest)
unfolding scheme_end starts_with
scheme_end-scheme_of true rest = refl
scheme_end-scheme_of false rest = refl

known_scheme :
    (secure : Bool)
    → (eq_ignore_ascii_case (scheme_of secure) (codes "http")
        || eq_ignore_ascii_case (scheme_of secure) (codes "https"))
      ≡ true
unfolding eq_ignore_ascii_case to_ascii_lowercase str_eq
known_scheme true = refl
known_scheme false = refl

lower_scheme : (secure : Bool) → to_ascii_lowercase (scheme_of secure) ≡ scheme_of secure
unfolding to_ascii_lowercase
lower_scheme true = refl
lower_scheme false = refl

before-Lacks : (c : ℕ) (x : Bytes) → Lacks c x → before c x ≡ x
before-Lacks c x h = rw (before, split_once-Lacks c x h) refl

behind-Lacks : (c : ℕ) (x : Bytes) → Lacks c x → behind c x ≡ []
behind-Lacks c x h = rw (behind, split_once-Lacks c x h) refl

slash_first : (path : Bytes) → starts_with (codes "/") (b'/' ∷ path) ≡ true
unfolding starts_with
slash_first path = refl

module _ (secure : Bool) (host path : Bytes) (full : is_empty host ≡ false)
    (lower : to_ascii_lowercase host ≡ host) (no_query : Lacks b'?' path) where
  -- An address with an authority that is read as the host and a port.
  read_authority :
      (authority : Bytes) (port : Option ℕ)
      → All (λ b. ends_authority b ≡ false) authority
      → is_empty authority ≡ false
      → split_host_port authority ≡ some (host, port)
      → (url : Bytes) → trim url ≡ scheme_of secure ++ (codes "://" ++ (authority ++ (b'/' ∷ path)))
      → parse_http_url url
        ≡ some (record {
          scheme = scheme_of secure;
          host = host;
          port = port;
          path = b'/' ∷ path;
          query = [];
        })
  unfolding parse_http_url
  read_authority authority port inside some_authority found url e =
      rw
        (
          e,
          scheme_end-scheme_of secure (authority ++ (b'/' ∷ path)),
          known_scheme secure,
          auth_end-append authority path inside,
          some_authority,
          found,
          full,
          before-Lacks b'?' (b'/' ∷ path) (refl, no_query),
          slash_first path,
          behind-Lacks b'?' (b'/' ∷ path) (refl, no_query),
          before-Lacks b'#' [] tt,
          lower_scheme secure,
          lower,
        )
        refl

number_of-parse_u16 :
    (n : ℕ) (s : Bytes)
    → AreDigits s
    → is_empty s ≡ false
    → number_of 0 s ≡ some n
    → leb n 65535 ≡ true
    → parse_u16 s ≡ some n
unfolding parse_u16
number_of-parse_u16 n [] hd he hn hm = absurd (true_not_false he)
number_of-parse_u16 n (b ∷ s) (hb, hs) he hn hm = ground arith

parse_u16-decimal : (n : ℕ) → n ≤ 65535 → parse_u16 (decimal (pos n)) ≡ some n
parse_u16-decimal n h =
    number_of-parse_u16 n (decimal (pos n)) (decimal-AreDigits n) (decimal_nonempty n)
      (number_of-decimal n) (ground arith)

unbracketed_bare : (host : Bytes) → Lacks b':' host → unbracketed host ≡ some (host, none)
unbracketed_bare host h = rw (unbracketed, rsplit_once-Lacks b':' host h) refl

unbracketed-decimal :
    (host : Bytes) (port : ℕ)
    → port ≤ 65535
    → unbracketed (host ++ (b':' ∷ decimal (pos port))) ≡ some (host, some port)
unbracketed-decimal host port h =
    rw
      (
        unbracketed,
        rsplit_once-append b':' host (decimal (pos port)) refl
            (AreDigits-Lacks b':' (decimal (pos port)) refl (decimal-AreDigits port)),
        decimal_nonempty port,
        parse_u16-decimal port h,
      )
      refl

split_host_port_bare :
    (host : Bytes) → Lacks b':' host → Lacks b'[' host → split_host_port host ≡ some (host, none)
unfolding split_host_port
split_host_port_bare [] h k = unbracketed_bare [] h
split_host_port_bare (b ∷ bs) h (k, ks) = rw k (unbracketed_bare (b ∷ bs) h)

split_host_port-decimal :
    (host : Bytes) (port : ℕ)
    → is_empty host ≡ false
    → Lacks b'[' host
    → port ≤ 65535
    → split_host_port (host ++ (b':' ∷ decimal (pos port))) ≡ some (host, some port)
unfolding split_host_port
split_host_port-decimal [] port e k h = absurd (true_not_false e)
split_host_port-decimal (b ∷ bs) port e (k, ks) h = rw k (unbracketed-decimal (b ∷ bs) port h)

append_nonempty : (x y : Bytes) → is_empty x ≡ false → is_empty (x ++ y) ≡ false
append_nonempty [] y h = absurd (true_not_false h)
append_nonempty (b ∷ x) y h = refl

digits_inside : (s : Bytes) → AreDigits s → All (λ b. ends_authority b ≡ false) s
digits_inside [] h = tt
digits_inside (b ∷ s) (h, hs) = (ground arith, digits_inside s hs)

-- The port that goes unsaid.
abbrev pub default_port : Bool → ℕ
default_port true = 443
default_port false = 80

or_false : (b : Bool) → (b || false) ≡ b
or_false true = refl
or_false false = refl

build_url-scheme_of :
    (secure : Bool) (host : Bytes) (port : ℕ) (path : Bytes)
    → build_url (scheme_of secure) host port path
      ≡ scheme_of secure
        ++ (codes "://"
            ++ (host
                ++ ((if port == default_port secure then [] else b':' ∷ decimal (pos port))
                    ++ path)))
unfolding build_url str_eq
build_url-scheme_of true host port path = refl
build_url-scheme_of false host port path = rw (or_false (port == 80)) refl

-- An address that `build_url` makes of http or https, a host in lower case, a port and a path is read
-- as that scheme, host and path and an empty query, and as that port, or none for the default port of
-- the scheme. The host is not empty and has none of the characters `/?#:[`, the path begins with a
-- slash and has no `?`, and the address has no white space at its ends.
pub parse_http_url-build_url :
    (secure : Bool) (host : Bytes) (port : ℕ) (path : Bytes)
    → is_empty host ≡ false
    → to_ascii_lowercase host ≡ host
    → All (λ b. ends_authority b ≡ false) host
    → Lacks b':' host
    → Lacks b'[' host
    → port ≤ 65535
    → Lacks b'?' path
    → trim (build_url (scheme_of secure) host port (b'/' ∷ path))
      ≡ build_url (scheme_of secure) host port (b'/' ∷ path)
    → parse_http_url (build_url (scheme_of secure) host port (b'/' ∷ path))
      ≡ some (record {
        scheme = scheme_of secure;
        host = host;
        port = if port == default_port secure then none else some port;
        path = b'/' ∷ path;
        query = [];
      })
parse_http_url-build_url secure host port path full lower inside no_colon no_bracket below no_query
      trimmed =
    elim (Bool-cases (port == default_port secure)) [
      | inl e ↦ rw e (
          read_authority secure host path full lower no_query host none inside full
            (split_host_port_bare host no_colon no_bracket)
            (build_url (scheme_of secure) host port (b'/' ∷ path))
            (trimmed ∙ (build_url-scheme_of secure host port (b'/' ∷ path) ∙ rw e refl)))
      | inr e ↦ rw e (
          read_authority secure host path full lower no_query (host ++ (b':' ∷ decimal (pos port)))
            (some port)
            (All-append (λ b. ends_authority b ≡ false) host (b':' ∷ decimal (pos port)) inside
              (refl, digits_inside (decimal (pos port)) (decimal-AreDigits port)))
            (append_nonempty host (b':' ∷ decimal (pos port)) full)
            (split_host_port-decimal host port full no_bracket below)
            (build_url (scheme_of secure) host port (b'/' ∷ path))
            (trimmed
              ∙ (build_url-scheme_of secure host port (b'/' ∷ path)
                  ∙ rw (e, append_assoc host (b':' ∷ decimal (pos port)) (b'/' ∷ path)) refl)))
    ]
