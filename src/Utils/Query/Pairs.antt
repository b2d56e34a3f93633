-- ===== src/Utils/Query/Pairs.antt =====
-- `query_get` on a path whose query was written pair by pair.
use plain_rs.Common.{
  ℕ, ◌≡◌, refl, ◌∙◌, ap, false, List, [], ◌∷◌, ◌++◌, map, arith, if◌then◌else◌, Bytes, All-append,
  Option, none, some, str_eq, lookup, lookup-insert, split, split-append, split-Lacks,
  split_once-append, Lacks, is_empty, insert,
}
use plain_rs.Utils.Utf8.{IsUtf8, IsUtf8-bytes}
use plain_rs.Utils.Query.{url_encode, parse_pairs, parse_query, query_get, pair_of}
use plain_rs.Utils.Query.RoundTrip.{percent_decode-url_encode, url_encode-Lacks}

-- A query string as `url_encode` builds one: `k=v` pairs between ampersands.
pub render_pair : Bytes × Bytes → Bytes
render_pair (k, v) = url_encode k ++ (b'=' ∷ url_encode v)

unfoldable pub render : List (Bytes × Bytes) → Bytes
unfolding render_pair
render [] = []
render (p ∷ []) = render_pair p
render (p ∷ q ∷ r) = render_pair p ++ (b'&' ∷ render (q ∷ r))

-- The value of the last pair under a key.
unfoldable pub last_value : Bytes → List (Bytes × Bytes) → Option Bytes
last_value key [] = none
last_value key ((k, v) ∷ r) = elim (last_value key r) [
  | none ↦ if str_eq k key then some v else none
  | some w ↦ some w
]

abbrev pub AllUtf8 : List (Bytes × Bytes) → Type 0
AllUtf8 [] = Unit
AllUtf8 ((k, v) ∷ r) = IsUtf8 k × IsUtf8 v × AllUtf8 r

render_pair-Lacks : {k v : Bytes} → IsUtf8 k → IsUtf8 v → Lacks b'&' (render_pair (k, v))
unfolding render_pair
render_pair-Lacks {k} {v} hk hv =
    All-append _ (url_encode k) _ (url_encode-Lacks k (IsUtf8-bytes hk)).0
      (refl, (url_encode-Lacks v (IsUtf8-bytes hv)).0)

is_empty-append : (x : Bytes) (c : ℕ) (y : Bytes) → is_empty (x ++ (c ∷ y)) ≡ false
is_empty-append [] c y = refl
is_empty-append (b ∷ x) c y = refl

parse_pairs_step :
    {k v : Bytes} (rest : List Bytes) (out : List (Bytes × Bytes))
    → IsUtf8 k
    → IsUtf8 v
    → parse_pairs (render_pair (k, v) ∷ rest) out ≡ parse_pairs rest (insert k v out)
unfolding parse_pairs render_pair
parse_pairs_step {k} {v} rest out hk hv = rw (
  if◌then◌else◌,
  pair_of,
  is_empty-append (url_encode k) b'=' (url_encode v),
  split_once-append b'=' (url_encode k) (url_encode v) (url_encode-Lacks k (IsUtf8-bytes hk)).1,
  percent_decode-url_encode hk,
  percent_decode-url_encode hv,
)

split-render :
    (p : Bytes × Bytes) (r : List (Bytes × Bytes))
    → AllUtf8 (p ∷ r)
    → split b'&' (render (p ∷ r)) ≡ map render_pair (p ∷ r)
unfolding render
split-render (k, v) [] (hk, hv, hr) = split-Lacks _ _ (render_pair-Lacks hk hv)
split-render (k, v) (q ∷ r) (hk, hv, hr) =
    split-append _ _ _ (render_pair-Lacks hk hv)
    ∙ ap (◌∷◌ (render_pair (k, v))) (split-render q r hr)

abbrev or_else : Option Bytes → Option Bytes → Option Bytes
or_else none b = b
or_else (some a) b = some a

lookup-parse_pairs :
    (key : Bytes) (kvs out : List (Bytes × Bytes))
    → AllUtf8 kvs
    → lookup key (parse_pairs (map render_pair kvs) out)
      ≡ or_else (last_value key kvs) (lookup key out)
unfolding last_value
lookup-parse_pairs key [] out h = unfold parse_pairs in refl
lookup-parse_pairs key ((k, v) ∷ r) out (hk, hv, hr) =
    ap (lookup key) (parse_pairs_step (map render_pair r) out hk hv)
    ∙ lookup-parse_pairs key r (insert k v out) hr
    ∙ ground (arith, lookup-insert k key v out)

or_else-none : (a : Option Bytes) → or_else a none ≡ a
or_else-none none = refl
or_else-none (some a) = refl

lookup-parse_query :
    (key : Bytes) (kvs : List (Bytes × Bytes))
    → AllUtf8 kvs
    → lookup key (parse_query (render kvs)) ≡ last_value key kvs
unfolding parse_query
lookup-parse_query key [] h = unfold parse_pairs render last_value split lookup in refl
lookup-parse_query key (p ∷ r) h =
    ap (λ ps. lookup key (parse_pairs ps [])) (split-render p r h)
    ∙ lookup-parse_pairs key (p ∷ r) [] h
    ∙ unfold lookup in or_else-none (last_value key (p ∷ r))

-- A parameter looked up in a path that was built with `url_encode`, in UTF-8 keys and values and
-- with no `?` before the query, is the value of the last pair under its key, and is absent if there
-- is none.
pub query_get-render :
    (path key : Bytes) (kvs : List (Bytes × Bytes))
    → Lacks b'?' path
    → AllUtf8 kvs
    → query_get (path ++ (b'?' ∷ render kvs)) key ≡ last_value key kvs
unfolding query_get
query_get-render path key kvs hp h =
    rw (split_once-append b'?' path (render kvs) hp) (lookup-parse_query key kvs h)
