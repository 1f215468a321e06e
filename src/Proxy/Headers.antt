-- ===== src/Proxy/Headers.antt =====
-- internal/proxy/headers.go. The order in which Go visits a map is left open: the later entry of the
-- list is visited first.
pub mod Hosts
pub mod Copies
use trino_goway.Base.{
  ℕ, Bool, true, false, ◌==◌, Option, none, some, List, [], ◌∷◌, ◌++◌, if◌then◌else◌, Text, codes,
  is_empty, contains, text_eq,
}
use trino_goway.Dict.{put}
use trino_goway.Http.{Header, canonical_key, header_get, header_set}

abbrev pub hop_by_hop_headers : List Text
hop_by_hop_headers =
    codes "Connection"
    ∷ codes "Keep-Alive"
    ∷ codes "Proxy-Authenticate"
    ∷ codes "Proxy-Authorization"
    ∷ codes "Te"
    ∷ codes "Trailers"
    ∷ codes "Transfer-Encoding"
    ∷ codes "Upgrade"
    ∷ []

unfoldable pub is_hop_by_hop : Text → Bool
is_hop_by_hop name = contains hop_by_hop_headers (canonical_key name)

unfoldable pub copy_headers : Header → Header → Header
copy_headers dst [] = dst
copy_headers dst ((k, vv) ∷ src) =
    let rest = copy_headers dst src in if is_hop_by_hop k then rest else put k vv rest

-- the text before and behind the last byte `b`
unfoldable pub last_cut : ℕ → Text → Option (Text × Text)
last_cut b [] = none
last_cut b (c ∷ s) = elim (last_cut b s) [
  | some (x, y) ↦ some (c ∷ x, y)
  | none ↦ if c == b then some ([], s) else none
]

-- the text before and behind the first byte `b`
unfoldable pub first_cut : ℕ → Text → Option (Text × Text)
first_cut b [] = none
first_cut b (c ∷ s) =
    let later = first_cut b s in
    if c == b then some ([], s) else elim later [ none ↦ none | some (x, y) ↦ some (c ∷ x, y) ]

unfoldable pub host_only : Text → Text
host_only [] = []
host_only (c ∷ s) =
    if c == b'['
    then elim (first_cut b']' (c ∷ s)) [ none ↦ c ∷ s | some (x, y) ↦ x ++ (b']' ∷ []) ]
    else elim (last_cut b':' (c ∷ s)) [ none ↦ c ∷ s | some (x, y) ↦ x ]

abbrev pub default_port : Text → Text
default_port proto = if text_eq proto (codes "https") then codes "443" else codes "80"

abbrev after_bracket : Text → Text → Text
after_bracket default [] = default
after_bracket default (c ∷ s) = if c == b':' then s else default

unfoldable pub forwarded_port : Text → Text → Text
forwarded_port [] proto = default_port proto
forwarded_port (c ∷ s) proto =
    if c == b'['
    then elim (first_cut b']' (c ∷ s)) [
      | none ↦ default_port proto
      | some (x, y) ↦ after_bracket (default_port proto) y
    ]
    else elim (last_cut b':' (c ∷ s)) [ none ↦ default_port proto | some (x, y) ↦ y ]

-- The parts of an inbound request that the proxy reads.
pub record Inbound : Type 0 where
  pub method : Text
  pub path : Text
  pub raw_query : Text
  pub remote_addr : Text
  pub host : Text
  pub is_tls : Bool
  pub headers : Header
  pub cookie : Option Text

abbrev client_ip : Text → Text
client_ip addr = elim (last_cut b':' addr) [ none ↦ addr | some (ip, port) ↦ ip ]

abbrev forwarded_for : Text → Text → Text
forwarded_for existing ip = if is_empty existing then ip else existing ++ (codes ", " ++ ip)

unfoldable pub set_all : List (Text × Text) → Header → Header
set_all [] h = h
set_all ((k, v) ∷ ext) h = header_set k v (set_all ext h)

abbrev pub scheme : Inbound → Text
scheme r = if r.is_tls then codes "https" else codes "http"

-- injectHeaders on the headers of the upstream request
unfoldable pub inject_headers : Inbound → List (Text × Text) → Header → Header
inject_headers r external h = set_all external (
    header_set (codes "X-Forwarded-Port") (forwarded_port r.host (scheme r)) (
      header_set (codes "X-Forwarded-Host") (host_only r.host) (
        header_set (codes "X-Forwarded-Proto") (scheme r) (
          header_set (codes "X-Forwarded-For")
            (forwarded_for (header_get (codes "X-Forwarded-For") h) (client_ip r.remote_addr)) h))))
