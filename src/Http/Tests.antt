-- ===== src/Http/Tests.antt =====
-- The Host rewrite at concrete requests.
use go_portless.Common.{◌≡◌, ◌↔◌, ◌⊎◌, true, false, none, some, List, [], ◌∷◌, codes, contains}
use go_portless.HostRule.{validate_host_rewrite}
use go_portless.Dial.{RouteConfig, background}
use go_portless.Registry.{Registry, new_registry, lookup_route}
use go_portless.Fixtures.{idle, up_dial, backend_of, rewriting_route, with_routes}
use go_portless.Net.Ip.{parse_ip}
use go_portless.Http.{host_rewrite, rewritten, rewrite_of, name_and_port}
use go_portless.Http.Rewrite.{validate_host_rewrite_iff, AreHostBytes}
use go_portless.Http.FastPath.{Call, call_add, call_remove, calls, host_rewrite-calls}

-- Brackets are accepted.
validate_host_rewrite_iff_example : (validate_host_rewrite (codes "[abc]") ≡ none) ↔ (
    AreHostBytes (codes "[abc]")
    × ((contains b':' (codes "[abc]") ≡ false) ⊎ (parse_ip (codes "[abc]") ≡ true)))
validate_host_rewrite_iff_example = validate_host_rewrite_iff (codes "[abc]")

abbrev rewriting : Registry Unit
rewriting = with_routes ((codes "db", some rewriting_route) ∷ [])

abbrev to_example : RouteConfig Unit → RouteConfig Unit
to_example cfg = record cfg { host_rewrite = codes "example.org" }

abbrev session : List (Call Unit)
session =
    call_add background (codes "db") (some (backend_of up_dial)) (to_example ∷ [])
    ∷ call_remove background (codes "web")
    ∷ []

host_rewrite-calls_example :
    let r = (calls session (new_registry [], idle)).0 in
    let (name, port) = name_and_port (codes "db:8080") in
    host_rewrite r (codes "db:8080") ≡ rewritten (rewrite_of (lookup_route r name)) port
host_rewrite-calls_example = host_rewrite-calls [] idle session (codes "db:8080")
