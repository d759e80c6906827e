-- ===== src/Backends/Parse.antt =====
-- backend/parse.go: ParseTCP, from an address as a user writes it to the one that the TCP backend
-- dials. url.Parse and net.LookupPort are arguments.
pub mod Accepted
pub mod Written
mod Tests
use go_portless.Common.{
  ℕ, Bool, true, false, not, ◌&&◌, ◌||◌, Option, none, some, [], ◌∷◌, ◌==◌, if◌then◌else◌, Text,
  codes, text_eq, contains, trim_space,
}
use mathlib.Core.Option
use go_portless.Errors.{errorf, wrap}
use go_portless.Net.{split_host_port, join_host_port}
use go_portless.Dial.{Result, ok, failed}

-- What ParseTCP reads of a url.URL.
pub record Url : Type 0 where
  pub scheme : Text
  pub has_user : Bool
  pub host : Text
  pub path : Text
  pub raw_query : Text
  pub fragment : Text

unfoldable pub has_prefix : Text → Text → Bool
has_prefix [] s = true
has_prefix (p ∷ ps) [] = false
has_prefix (p ∷ ps) (c ∷ s) = p == c && has_prefix ps s

-- strings.Cut at "://": what stands before it.
unfoldable pub cut_scheme : Text → Option Text
cut_scheme [] = none
cut_scheme (c ∷ s) =
    if has_prefix (codes "://") (c ∷ s) then some [] else Option.map (λ t. c ∷ t) (cut_scheme s)

abbrev pub is_bracket : ℕ → Bool
is_bracket c = c == b'[' || c == b']'

unfoldable pub trim_left_brackets : Text → Text
trim_left_brackets [] = []
trim_left_brackets (c ∷ s) = if is_bracket c then trim_left_brackets s else c ∷ s

abbrev pub unless_bracket : ℕ → Text → Text
unless_bracket c [] = if is_bracket c then [] else c ∷ []
unless_bracket c (d ∷ s) = c ∷ d ∷ s

unfoldable pub trim_right_brackets : Text → Text
trim_right_brackets [] = []
trim_right_brackets (c ∷ s) = unless_bracket c (trim_right_brackets s)

-- strings.Trim(s, "[]")
unfoldable pub trim_brackets : Text → Text
trim_brackets s = trim_left_brackets (trim_right_brackets s)

-- The host of a URL that a TCP backend can dial, given what url.Parse answers.
abbrev pub url_host : Text → Text → Result Url → Result Text
url_host s scheme (failed e) = failed (wrap "backend: parse tcp %q: %w" (s ∷ []) e)
url_host s scheme (ok u) =
    if text_eq u.scheme (codes "http")
    then if u.has_user
      then failed (errorf "backend: parse tcp %q: userinfo not allowed in a dial address" (s ∷ []))
      else if not (text_eq u.path [] && text_eq u.raw_query [] && text_eq u.fragment [])
      then failed (
          errorf "backend: parse tcp %q: a dial address cannot carry a path, query, or fragment"
            (s ∷ []))
      else ok u.host
    else if text_eq u.scheme (codes "https")
    then failed (
        errorf
          "backend: parse tcp %q: a TCP backend cannot terminate TLS; refusing to silently downgrade https to a plaintext dial"
          (s ∷ []))
    else failed (
        errorf
          "backend: parse tcp %q: unsupported scheme %q (want host[:port] or http://host[:port])"
          (s ∷ scheme ∷ []))

abbrev pub from_url : (Text → Result Url) → Text → Option Text → Result Text
from_url parse s none = ok s
from_url parse s (some scheme) = url_host s scheme (parse s)

unfoldable pub starts_bracket : Text → Bool
starts_bracket [] = false
starts_bracket (c ∷ s) = c == b'['

-- Without a port it is 80.
abbrev pub with_port : Text → Text → Option (Text × Text) → Result (Text × Text)
with_port s hostport (some hp) = ok hp
with_port s hostport none =
    if contains b':' hostport && not (starts_bracket hostport)
    then failed (
        errorf "backend: parse tcp %q: IPv6 literals must be bracketed, e.g. \"[::1]:8080\""
          (s ∷ []))
    else ok (trim_brackets hostport, codes "80")

-- The checks on the host and the port.
abbrev pub checked : (Text → Bool) → Text → Text × Text → Result Text
checked lookup_port s ([], port) = failed (
    errorf "backend: parse tcp %q: empty host (write 127.0.0.1:%s for a local address)"
      (s ∷ port ∷ []))
checked lookup_port s (c ∷ host, port) =
    if lookup_port port
    then ok (join_host_port (c ∷ host) port)
    else failed (errorf "backend: parse tcp %q: invalid port %q" (s ∷ port ∷ []))

infixl 5 ◌>>=◌
abbrev pub ◌>>=◌ : {A B : Type 0} → Result A → (A → Result B) → Result B
ok a >>= f = f a
failed e >>= f = failed e

module _ (parse : Text → Result Url) (lookup_port : Text → Bool) where
  abbrev pub parse_trimmed : Text → Result Text
  parse_trimmed [] = failed (errorf "backend: parse tcp: empty address" [])
  parse_trimmed (c ∷ t) = do
    let s = c ∷ t
    hostport ← from_url parse s (cut_scheme s)
    hp ← with_port s hostport (split_host_port hostport)
    checked lookup_port s hp

  -- ParseTCP: the address that the backend dials.
  unfoldable pub parse_tcp : Text → Result Text
  parse_tcp s = parse_trimmed (trim_space s)
