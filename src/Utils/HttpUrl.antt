-- ===== src/Utils/HttpUrl.antt =====
-- src/utils/http_url.rs: the parser of http and https addresses, and the resolution of a reference.
-- `build_url` stands with the transport.
pub mod Built
use plain_rs.Common.{
  ℕ, ◌+◌, ◌<◌, Bool, true, false, not, ◌&&◌, ◌||◌, List, [], ◌∷◌, ◌++◌, map, Option, none, some,
  Bytes, codes, str_eq, starts_with, is_empty, filter, split, split_once, trim, join, drop, take,
  find?, leb, ◌==◌, within, if◌then◌else◌, ◌>>=◌,
}
use plain_rs.Common.Int.{pos}
use plain_rs.Utils.Query.{percent_decode}
use plain_rs.Chat.Messages.{decimal}
use plain_rs.Chat.PeerAuth.{number_of}

pub record ParsedHttpUrl : Type 0 where
  pub scheme : Bytes
  pub host : Bytes
  pub port : Option ℕ
  pub path : Bytes
  pub query : Bytes

abbrev pair_of : Bytes → Bytes × Bytes
pair_of pair = elim (split_once b'=' pair) [ none ↦ (pair, []) | some p ↦ p ]

unfoldable pub parse_query_pairs : Bytes → List (Bytes × Bytes)
parse_query_pairs query =
    map (λ pair. (percent_decode (pair_of pair).0, percent_decode (pair_of pair).1))
      (filter (λ pair. not (is_empty pair)) (split b'&' query))

unfoldable pub query_param : ParsedHttpUrl → Bytes → Option Bytes
query_param url key =
    find? (λ (p : Bytes × Bytes). str_eq p.0 key) (parse_query_pairs url.query) >>= λ p. some p.1

-- `str::to_ascii_lowercase`, and the comparison without regard to case.
unfoldable pub to_ascii_lowercase : Bytes → Bytes
to_ascii_lowercase = map (λ b. if within 65 90 b then b + 32 else b)

unfoldable pub eq_ignore_ascii_case : Bytes → Bytes → Bool
eq_ignore_ascii_case a b = str_eq (to_ascii_lowercase a) (to_ascii_lowercase b)

-- The text before the first `://`, and behind it.
unfoldable pub scheme_end : Bytes → Option (Bytes × Bytes)
scheme_end [] = none
scheme_end (b ∷ bs) =
    if starts_with (codes "://") (b ∷ bs)
    then some ([], drop 2 bs)
    else elim (scheme_end bs) [ none ↦ none | some (f, r) ↦ some (b ∷ f, r) ]

abbrev pub ends_authority : ℕ → Bool
ends_authority c = c == b'/' || c == b'?' || c == b'#'

-- The text before the first character that ends an authority, and from it on.
unfoldable pub auth_end : Bytes → Bytes × Bytes
auth_end [] = ([], [])
auth_end (b ∷ bs) =
    if ends_authority b then ([], b ∷ bs) else (b ∷ (auth_end bs).0, (auth_end bs).1)

-- `rfind`: the text before the last `c`, and behind it.
unfoldable pub rsplit_once : ℕ → Bytes → Option (Bytes × Bytes)
rsplit_once c [] = none
rsplit_once c (b ∷ bs) = elim (rsplit_once c bs) [
  | some (f, r) ↦ some (b ∷ f, r)
  | none ↦ if b == c then some ([], bs) else none
]

abbrev below_u16 : Option ℕ → Option ℕ
below_u16 n = n >>= λ n. if leb n 65535 then some n else none

-- `str::parse::<u16>`
unfoldable pub parse_u16 : Bytes → Option ℕ
parse_u16 [] = none
parse_u16 (b ∷ bs) =
    if b == b'+'
    then (if is_empty bs then none else below_u16 (number_of 0 bs))
    else below_u16 (number_of 0 (b ∷ bs))

abbrev with_port : Bytes → Bytes → Option (Bytes × Option ℕ)
with_port host port_str = parse_u16 port_str >>= λ port. some (host, some port)

abbrev bracketed : Bytes → Option (Bytes × Option ℕ)
bracketed stripped = elim (split_once b']' stripped) [
  | none ↦ none
  | some (host, rest) ↦ elim rest [
    | [] ↦ some (host, none)
    | c ∷ port_str ↦ if c == b':' then with_port host port_str else none
  ]
]

abbrev pub unbracketed : Bytes → Option (Bytes × Option ℕ)
unbracketed authority = elim (rsplit_once b':' authority) [
  | none ↦ some (authority, none)
  | some (host, port_str) ↦
      if is_empty port_str then some (authority, none) else with_port host port_str
]

unfoldable pub split_host_port : Bytes → Option (Bytes × Option ℕ)
split_host_port [] = unbracketed []
split_host_port (b ∷ bs) = if b == b'[' then bracketed bs else unbracketed (b ∷ bs)

abbrev pub before : ℕ → Bytes → Bytes
before c s = elim (split_once c s) [ none ↦ s | some (f, r) ↦ f ]

abbrev pub behind : ℕ → Bytes → Bytes
behind c s = elim (split_once c s) [ none ↦ [] | some (f, r) ↦ r ]

abbrev guard : Bool → Option (Unit {0})
guard true = some tt
guard false = none

unfoldable pub parse_http_url : Bytes → Option ParsedHttpUrl
parse_http_url input = do
  (scheme, after) ← scheme_end (trim input)
  _ ←
      guard
        (eq_ignore_ascii_case scheme (codes "http") || eq_ignore_ascii_case scheme (codes "https"))
  (authority, rest) ← some (auth_end after)
  _ ← guard (not (is_empty authority))
  (host, port) ← split_host_port authority
  _ ← guard (not (is_empty host))
  _ ← guard (starts_with (codes "/") (before b'?' rest))
  some (record {
    scheme = to_ascii_lowercase scheme;
    host = to_ascii_lowercase host;
    port = port;
    path = before b'?' rest;
    query = before b'#' (behind b'?' rest);
  })

-- Without the last segment, unless that is empty.
abbrev parent : List Bytes → List Bytes
parent [] = []
parent (x ∷ []) = if is_empty x then x ∷ [] else []
parent (x ∷ y ∷ xs) = x ∷ parent (y ∷ xs)

abbrev walk_segment : Bytes → List Bytes → List Bytes
walk_segment seg out =
    if str_eq seg (codes ".")
    then out
    else if str_eq seg (codes "..")
    then parent out
    else out ++ (seg ∷ [])

abbrev walk_segments : List Bytes → List Bytes → List Bytes
walk_segments [] out = out
walk_segments (seg ∷ segs) out = walk_segments segs (walk_segment seg out)

unfoldable pub collapse_dot_segments : Bytes → Bytes
collapse_dot_segments path =
    let joined = join (codes "/") (walk_segments (split b'/' path) []) in
    if starts_with (codes "/") path && not (starts_with (codes "/") joined)
    then b'/' ∷ joined
    else joined

-- A relative path stands behind the last `/` of the path of the base.
abbrev against : Bytes → Bytes → Bytes
against base_path ref_path =
    if starts_with (codes "/") ref_path then ref_path else elim (rsplit_once b'/' base_path) [
      | none ↦ collapse_dot_segments (take 1 base_path ++ ref_path)
      | some (f, r) ↦ collapse_dot_segments (f ++ (b'/' ∷ ref_path))
    ]

abbrev host_port : ParsedHttpUrl → Bytes
host_port url = elim url.port [
  | none ↦ url.host
  | some p ↦
      if (str_eq url.scheme (codes "http") && p == 80)
        || (str_eq url.scheme (codes "https") && p == 443)
      then url.host
      else url.host ++ (b':' ∷ decimal (pos p))
]

abbrev is_some : {A : Type 0} → Option A → Bool
is_some none = false
is_some (some a) = true

abbrev with_query : Bytes → Bytes
with_query query = if is_empty query then [] else b'?' ∷ query

unfoldable pub resolve : ParsedHttpUrl → Bytes → Bytes
resolve base ref =
    let path = against base.path (before b'?' ref) in
    let query = if is_some (split_once b'?' ref) then behind b'?' ref else base.query in
    base.scheme ++ (codes "://" ++ (host_port base ++ (path ++ with_query query)))

unfoldable pub join_url : Bytes → Bytes → Option Bytes
join_url base reference =
    let ref_trim = trim reference in
    if is_empty ref_trim
    then some base
    else if is_some (parse_http_url ref_trim)
    then some ref_trim
    else parse_http_url base >>= λ base_url. some (resolve base_url ref_trim)
