-- ===== src/Http/Rewrite.antt =====
-- What the Host rewrite makes of a request, and what a rewrite may hold.
use go_portless.Common.{
  ℕ, ◌<◌, text_eq_no, ◌≡◌, refl, ◌≢◌, ◌↔◌, ◌⊎◌, inl, inr, true, false, Option, none, some, [], ◌∷◌,
  arith, Bool-cases, Text, contains,
}
use go_portless.Errors.{Err}
use go_portless.Net.{split_host_port, join_host_port}
use go_portless.Net.Ip.{parse_ip}
use go_portless.Net.Numbers.{every}
use go_portless.Net.HostPort.{IsBare, IsPort, split_host_port-join_host_port}
use go_portless.HostRule.{
  host_byte_ok, check_bytes, check_colons, bytes_checked, validate_host_rewrite, all_digits,
}
use go_portless.Route.{Route}
use go_portless.Route as RouteOf
use go_portless.Registry.{Registry, lookup_route}
use go_portless.Http.{
  name_and_port, with_port, Request, rewritten, host_rewrite, rehost, round_trip,
}

check_bytes-every : (h s : Text) → (check_bytes h s ≡ none) ↔ (every host_byte_ok s ≡ true)
unfolding check_bytes
check_bytes-every h [] = ((λ e. refl), (λ e. refl))
check_bytes-every h (c ∷ s) = ground (arith, check_bytes-every h s)

name_and_port-join :
    (name port : Text)
    → IsBare name
    → IsPort port
    → name_and_port (join_host_port name port) ≡ (name, port)
unfolding name_and_port
name_and_port-join name port b p =
    rw (split_host_port-join_host_port name port b p, name_and_port) refl

-- A byte that may stand in a Host header: printable, and without a meaning in a URL.
abbrev pub IsHostByte : ℕ → Type 0
IsHostByte c =
    (32 < c) × (c ≢ 127) × (c ≢ b'/') × (c ≢ b'?') × (c ≢ b'#') × (c ≢ b'@') × (c ≢ b'\\')

abbrev pub AreHostBytes : Text → Type 0
AreHostBytes [] = Unit
AreHostBytes (c ∷ s) = IsHostByte c × AreHostBytes s

host_byte_ok_iff : (c : ℕ) → (host_byte_ok c ≡ true) ↔ IsHostByte c
unfolding host_byte_ok
host_byte_ok_iff c = ground arith

host_bytes_iff : (s : Text) → (every host_byte_ok s ≡ true) ↔ AreHostBytes s
host_bytes_iff [] = ground arith
host_bytes_iff (c ∷ s) = ground (arith, host_byte_ok_iff c, host_bytes_iff s)

check_colons_iff :
    (h : Text) → (check_colons h ≡ none) ↔ ((contains b':' h ≡ false) ⊎ (parse_ip h ≡ true))
unfolding check_colons
check_colons_iff h = ground arith

bytes_checked_iff :
    (o : Option Err) (h : Text)
    → (bytes_checked o h ≡ none) ↔ ((o ≡ none) × ((contains b':' h ≡ false) ⊎ (parse_ip h ≡ true)))
bytes_checked_iff (some e) h = ground arith
bytes_checked_iff none h = ground (arith, check_colons_iff h)

-- Add accepts a host rewrite exactly if each of its bytes may stand in a Host header, which leaves
-- out control bytes, the space and the bytes / ? # @ and backslash, and it has no colon or is an
-- IP address. The empty rewrite is one of these; brackets are allowed bytes.
pub validate_host_rewrite_iff :
    (h : Text)
    → (validate_host_rewrite h ≡ none)
      ↔ (AreHostBytes h × ((contains b':' h ≡ false) ⊎ (parse_ip h ≡ true)))
unfolding validate_host_rewrite contains
validate_host_rewrite_iff [] = ((λ e. (tt, inl refl)), (λ h. refl))
validate_host_rewrite_iff (c ∷ s) = ground (
  arith,
  bytes_checked_iff (check_bytes (c ∷ s) (c ∷ s)) (c ∷ s),
  check_bytes-every (c ∷ s) (c ∷ s),
  host_bytes_iff (c ∷ s),
)

module _ {E : Type 0} where
  rehosted_port :
      (rt : Route E) (port host u : Text)
      → rt.cfg.host_rewrite ≢ []
      → IsBare rt.cfg.host_rewrite
      → IsPort port
      → port ≢ []
      → let q : Request = record { url_host = u; host = host } in
        ((h : Text) × (all_digits port ≡ true)
          × (rehost (rewritten (RouteOf.host_rewrite rt) port) q ≡ record q { host = h })
          × (split_host_port h ≡ some (rt.cfg.host_rewrite, port)))
        ⊎ ((all_digits port ≡ false) × (rehost (rewritten (RouteOf.host_rewrite rt) port) q ≡ q))
  unfolding RouteOf.host_rewrite with_port
  rehosted_port rt port host u some_rewrite bare p nonempty =
      rw (text_eq_no rt.cfg.host_rewrite [] some_rewrite, text_eq_no port [] nonempty)
        elim (Bool-cases (all_digits port)) [
          | inl digits ↦ inl (
            join_host_port rt.cfg.host_rewrite port,
            digits,
            rw digits refl,
            split_host_port-join_host_port rt.cfg.host_rewrite port bare p,
          )
          | inr other ↦ inr (other, rw other refl)
        ]

  -- A request for a route with a rewrite, by name and port: if the port is digits throughout, the
  -- Host header becomes the rewrite with the request's own port, as SplitHostPort reads it back,
  -- and the URL stays; with any other text for a port the request is left as it is. The name and
  -- the rewrite are written without brackets.
  pub round_trip_port :
      (r : Registry E) (name port host : Text) (rt : Route E)
      → r.has_rewrites ≡ true
      → lookup_route r name ≡ some rt
      → rt.cfg.host_rewrite ≢ []
      → IsBare rt.cfg.host_rewrite
      → IsBare name
      → IsPort port
      → port ≢ []
      → let q : Request = record { url_host = join_host_port name port; host = host } in
        ((h : Text) × (all_digits port ≡ true)
          × (round_trip r q ≡ record q { host = h })
          × (split_host_port h ≡ some (rt.cfg.host_rewrite, port)))
        ⊎ ((all_digits port ≡ false) × (round_trip r q ≡ q))
  unfolding round_trip host_rewrite
  round_trip_port r name port host rt flag found some_rewrite bare bare_name p nonempty =
      simp (name_and_port-join name port bare_name p, flag, found)
        (rehosted_port rt port host (join_host_port name port) some_rewrite bare p nonempty)
