-- ===== src/Http.antt =====
-- http.go: the Host rewrite of requests, and the URL builders.
pub mod Rewrite
pub mod FastPath
mod Tests
use go_portless.Common.{
  ◌+◌, ◌/◌, ◌||◌, Option, none, some, [], ◌∷◌, ◌++◌, ◌==◌, if◌then◌else◌, Text, codes, text_eq,
}
use go_portless.Net.{ℤ, pos, int_eq, itoa, split_host_port, join_host_port}
use go_portless.HostRule.{all_digits}
use go_portless.Route.{Route}
use go_portless.Route as RouteOf
use go_portless.Registry.{Registry, lookup_route}

-- The parts of a URL's host: a name, and a port or the empty text.
unfoldable pub name_and_port : Text → Text × Text
name_and_port url_host = elim (split_host_port url_host) [
  | none ↦ (url_host, [])
  | some (h, p) ↦ (h, p)
]

-- The rewrite with the request's port, if it has one and it is digits throughout.
unfoldable pub with_port : Text → Text → Option Text
with_port rewrite port =
    if text_eq port []
    then some rewrite
    else if all_digits port
    then some (join_host_port rewrite port)
    else none

-- An http.Request, as far as the rewrite goes: the host of its URL, and its Host header.
pub record Request : Type 0 where
  pub url_host : Text
  pub host : Text

abbrev pub rewritten : Option Text → Text → Option Text
rewritten none port = none
rewritten (some rewrite) port = with_port rewrite port

abbrev pub rehost : Option Text → Request → Request
rehost none q = q
rehost (some h) q = record q { host = h }

module _ {E : Type 0} where
  abbrev pub rewrite_of : Option (Route E) → Option Text
  rewrite_of none = none
  rewrite_of (some rt) = RouteOf.host_rewrite rt

  -- HostRewrite; `none` is ok = false.
  unfoldable pub host_rewrite : Registry E → Text → Option Text
  host_rewrite r url_host =
      let (name, port) = name_and_port url_host in
      if r.has_rewrites then rewritten (rewrite_of (lookup_route r name)) port else none

  -- The request that RoundTrip of WrapRoundTripper hands on.
  unfoldable pub round_trip : Registry E → Request → Request
  round_trip r q = rehost (host_rewrite r q.url_host) q

unfoldable pub with_slash : Text → Text
with_slash [] = []
with_slash (c ∷ s) = if c == b'/' then c ∷ s else b'/' ∷ (c ∷ s)

unfoldable pub url_host_port : Text → ℤ → ℤ → Text
url_host_port name port default_port =
    if int_eq port (pos 0) || int_eq port default_port
    then name
    else join_host_port name (itoa port)

-- buildURL
unfoldable pub build_url : Text → Text → ℤ → ℤ → Text → Text
build_url scheme name port default_port path =
    scheme ++ (codes "://" ++ (url_host_port name port default_port ++ with_slash path))

-- URL and WSURL
unfoldable pub url : Text → ℤ → Text → Text
url name port path = build_url (codes "http") name port (pos 80) path

unfoldable pub ws_url : Text → ℤ → Text → Text
ws_url name port path = build_url (codes "ws") name port (pos 80) path
