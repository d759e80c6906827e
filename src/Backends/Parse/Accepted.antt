-- ===== src/Backends/Parse/Accepted.antt =====
-- Which addresses ParseTCP accepts, and what it makes of them.
use go_portless.Common.{
  ◌≡◌, refl, ◌≢◌, ◌⊎◌, inl, inr, Bool, true, false, not, ◌&&◌, Option, none, some, [], ◌∷◌, arith,
  Text, codes, text_eq_iff, contains, trim_space,
}
use go_portless.Net.{split_host_port, join_host_port}
use go_portless.Dial.{Result, ok, failed}
use go_portless.Backends.Parse.{
  Url, cut_scheme, trim_brackets, url_host, from_url, starts_bracket, with_port, checked, ◌>>=◌,
  parse_trimmed, parse_tcp,
}

-- A chain that succeeds has passed its first part with some value.
passed :
    {A B : Type 0} {b : B} (rest : A → Result B) (first : Result A)
    → (first >>= rest) ≡ ok b
    → (a : A) × (rest a ≡ ok b) × (first ≡ ok a)
passed rest (failed e) h = absurd (ground arith)
passed rest (ok a) h = (a, h, refl)

-- A URL that a TCP backend can dial: plain HTTP, and no more than a host and a port.
abbrev pub IsDialable : Url → Type 0
IsDialable u =
    (u.scheme ≡ codes "http")
    × (u.has_user ≡ false)
    × (u.path ≡ [])
    × (u.raw_query ≡ [])
    × (u.fragment ≡ [])

url_host_ok :
    (s scheme : Text) (r : Result Url) {h : Text}
    → url_host s scheme r ≡ ok h
    → (u : Url) × (r ≡ ok u) × IsDialable u × (u.host ≡ h)
url_host_ok s scheme (failed e) h = absurd (ground arith)
url_host_ok s scheme (ok u) h = (
  u,
  refl,
  ground (
    arith,
    text_eq_iff u.scheme (codes "http"),
    text_eq_iff u.path [],
    text_eq_iff u.raw_query [],
    text_eq_iff u.fragment [],
  ),
  ground arith,
)

module _ (parse : Text → Result Url) (lookup_port : Text → Bool) where
  -- Where the host and port come from: the text itself, or a URL that can be dialed.
  abbrev pub Origin : Text → Text → Type 0
  Origin s hostport =
      ((cut_scheme s ≡ none) × (hostport ≡ s))
      ⊎ ((u : Url) × (parse s ≡ ok u) × IsDialable u × (u.host ≡ hostport))

  from_url_ok :
      (s : Text) (o : Option Text) {h : Text}
      → cut_scheme s ≡ o
      → from_url parse s o ≡ ok h
      → Origin s h
  from_url_ok s none c h = inl (c, ground arith)
  from_url_ok s (some scheme) c h = inr (url_host_ok s scheme (parse s) h)

  checked_ok :
      (s : Text) (hp : Text × Text) {a : Text}
      → checked lookup_port s hp ≡ ok a
      → (hp.0 ≢ []) × (lookup_port hp.1 ≡ true) × (join_host_port hp.0 hp.1 ≡ a)
  checked_ok s ([], port) h = absurd (ground arith)
  checked_ok s (c ∷ host, port) h = (λ e. absurd (ground arith), ground arith, ground arith)

  -- The host and the port, split or with the default port.
  abbrev pub HostPort : Text → Text → Text → Type 0
  HostPort hostport host port =
      (split_host_port hostport ≡ some (host, port))
      ⊎ ((split_host_port hostport ≡ none)
          × (host ≡ trim_brackets hostport)
          × (port ≡ codes "80")
          × ((contains b':' hostport && not (starts_bracket hostport)) ≡ false))

  with_port_ok :
      (s hostport : Text) (o : Option (Text × Text)) {hp : Text × Text}
      → split_host_port hostport ≡ o
      → with_port s hostport o ≡ ok hp
      → HostPort hostport hp.0 hp.1
  with_port_ok s hostport (some (h, p)) e w = inl (ground arith)
  with_port_ok s hostport none e w = inr (e, ground arith, ground arith, ground arith)

  -- What an accepted address is, of the text without the spaces around it.
  abbrev pub IsAccepted : Text → Text → Type 0
  IsAccepted s a =
      (hostport : Text) × (host : Text) × (port : Text) × Origin s hostport
      × HostPort hostport host port
      × (host ≢ [])
      × (lookup_port port ≡ true)
      × (join_host_port host port ≡ a)

  parse_trimmed-IsAccepted :
      (s : Text) {a : Text} → parse_trimmed parse lookup_port s ≡ ok a → IsAccepted s a
  parse_trimmed-IsAccepted [] h = absurd (ground arith)
  parse_trimmed-IsAccepted (c ∷ t) h =
      let (hostport, rest, f) = passed _ (from_url parse (c ∷ t) (cut_scheme (c ∷ t))) h in
      let ((host, port), k, w) =
        passed _ (with_port (c ∷ t) hostport (split_host_port hostport)) rest in
      let (ne, l, j) = checked_ok (c ∷ t) (host, port) k in
      (
        hostport,
        host,
        port,
        from_url_ok (c ∷ t) (cut_scheme (c ∷ t)) refl f,
        with_port_ok (c ∷ t) hostport (split_host_port hostport) refl w,
        ne,
        l,
        j,
      )

  -- ParseTCP accepts no other scheme than http, and no URL with more than a host and a port. If it
  -- answers a backend, the text without the spaces around it has no "://" or is read by url.Parse as
  -- a URL with the scheme http and without userinfo, path, query and fragment; the address that the
  -- backend dials has the host and port that SplitHostPort finds in the text or in the URL's host, or
  -- if it finds none, that host without brackets around it, which has no colon unless it starts with
  -- a bracket, and port 80; and the host is not empty, and LookupPort accepts the port.
  pub parse_tcp-IsAccepted :
      (s : Text) {a : Text} → parse_tcp parse lookup_port s ≡ ok a → IsAccepted (trim_space s) a
  unfolding parse_tcp
  parse_tcp-IsAccepted s h = parse_trimmed-IsAccepted (trim_space s) h
