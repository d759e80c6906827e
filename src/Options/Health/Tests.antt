-- ===== src/Options/Health/Tests.antt =====
-- A route whose backend completes every handshake.
use go_portless.Common.{◌≡◌, refl, none, some, codes}
use go_portless.Net.{pos}
use go_portless.Dial.{ok, background, close_conn}
use go_portless.Route.{Route}
use go_portless.Readiness.{judge, gate, try}
use go_portless.Options.Health.{Handshake, tls_health}
use go_portless.Options.Health.Probed.{IsProbed, try-IsProbed}
use go_portless.Fixtures.{World0, idle, up_dial, plain_config, route_of}

abbrev willing : Handshake Unit
willing ctx c w = (none, w)

abbrev secure : Route Unit
secure = route_of up_dial (record plain_config { health = some (tls_health willing (pos 443)) })

abbrev after : World0
after = close_conn 7 (close_conn 7 idle)

secure_runs : try secure background (codes "tcp") (codes "db:443") idle ≡ (ok 7, after)
unfolding try gate judge tls_health
secure_runs = refl

try-IsProbed_example :
    (w1 : World0) × (up_dial background (codes "tcp") (codes "db:443") idle ≡ (ok 7, w1))
    × IsProbed willing (pos 443) background up_dial w1 after
try-IsProbed_example =
    try-IsProbed willing (pos 443) background secure (codes "tcp") (codes "db:443") idle after 7
      refl secure_runs
