-- ===== src/Proxy.antt =====
-- proxy/: the dispatch of requests (proxy.go) and the headers of what is forwarded (forward.go).
-- A header is a dictionary from canonical keys to values, as net/textproto reads it.
pub mod Headers
pub mod Connect
pub mod Forward
mod Tests
use go_portless.Common.{
  trim_space, ℕ, ◌+◌, ◌-◌, ◌*◌, ◌%◌, ◌^◌, Bool, true, ◌&&◌, ◌||◌, Option, none, some, List, [], ◌∷◌,
  ◌++◌, leb, ◌==◌, if◌then◌else◌, Text, codes, text_eq, contains, lower_byte, Dict, lookup, delete,
}
use go_portless.Net.{split_host_port}
use go_portless.Http.{Request, rehost}

abbrev pub Header : Type 0
Header = Dict (List Text)

-- textproto.CanonicalMIMEHeaderKey: capitals at the start and after each dash, if the key is made
-- of the bytes of a token; any other key is left alone.
unfoldable pub is_token_byte : ℕ → Bool
is_token_byte c =
    (leb b'a' c && leb c b'z')
    || (leb b'A' c && leb c b'Z')
    || (leb b'0' c && leb c b'9')
    || contains c (codes "!#$%&'*+-.^_`|~")

unfoldable pub is_token : Text → Bool
is_token [] = true
is_token (c ∷ s) = is_token_byte c && is_token s

unfoldable pub upper_byte : ℕ → ℕ
upper_byte c = if leb b'a' c && leb c b'z' then c - 32 else c

unfoldable pub capitalize : Bool → Text → Text
capitalize first [] = []
capitalize first (c ∷ s) = (if first then upper_byte c else lower_byte c) ∷ capitalize (c == b'-') s

unfoldable pub canonical : Text → Text
canonical s = if is_token s then capitalize true s else s

-- Header.Values and Header.Del
abbrev pub or_empty : Option (List Text) → List Text
or_empty none = []
or_empty (some vs) = vs

unfoldable pub values : Text → Header → List Text
values key h = or_empty (lookup (canonical key) h)

unfoldable pub del : Header → Text → Header
del h key = delete (canonical key) h

unfoldable pub del_all : List Text → Header → Header
del_all [] h = h
del_all (k ∷ ks) h = del_all ks (del h k)

-- strings.SplitSeq at commas.
abbrev pub onto_first : ℕ → List Text → List Text
onto_first c [] = (c ∷ []) ∷ []
onto_first c (t ∷ ts) = (c ∷ t) ∷ ts

unfoldable pub split_commas : Text → List Text
split_commas [] = [] ∷ []
split_commas (c ∷ s) = if c == b',' then [] ∷ split_commas s else onto_first c (split_commas s)

-- The tokens of the lines of a Connection header.
unfoldable pub non_empty : List Text → List Text
non_empty [] = []
non_empty (t ∷ ts) = if text_eq (trim_space t) [] then non_empty ts else trim_space t ∷ non_empty ts

unfoldable pub tokens : List Text → List Text
tokens [] = []
tokens (line ∷ lines) = non_empty (split_commas line) ++ tokens lines

abbrev pub hop_by_hop : List Text
hop_by_hop =
    codes "Connection"
    ∷ codes "Proxy-Connection"
    ∷ codes "Keep-Alive"
    ∷ codes "Proxy-Authenticate"
    ∷ codes "Proxy-Authorization"
    ∷ codes "Te"
    ∷ codes "Trailer"
    ∷ codes "Transfer-Encoding"
    ∷ codes "Upgrade"
    ∷ []

-- stripHopByHop
unfoldable pub strip_hop_by_hop : Header → Header
strip_hop_by_hop h = del_all hop_by_hop (del_all (tokens (values (codes "Connection") h)) h)

-- ServeHTTP's choice.
pub data Handler : Type 0 where
  connect absolute refused : Handler

unfoldable pub serve_http : Text → Bool → Handler
serve_http method is_abs =
    if text_eq method (codes "CONNECT") then connect else if is_abs then absolute else refused

-- The host that a request over a terminated TLS connection is forwarded to.
abbrev pub without_port : Text → Option (Text × Text) → Text
without_port host none = host
without_port host (some (h, p)) = h

unfoldable pub tls_target : Text → Text → Text
tls_target connect_host host =
    let named = if text_eq host [] then connect_host else host in
    without_port named (split_host_port named)

-- The request that forward sends, given what the dialer's HostRewrite answers for its URL's host;
-- a dialer without HostRewrite answers none.
unfoldable pub forwarded : (Text → Option Text) → Request → Header → Request × Header
forwarded host_rewrite q h = (rehost (host_rewrite q.url_host) q, strip_hop_by_hop h)
