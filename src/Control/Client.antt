-- ===== src/Control/Client.antt =====
-- control/client.go: how the client reads a reply.
use go_portless.Common.{ℕ, Option, none, some, [], ◌∷◌, leb, if◌then◌else◌, Text, text_eq}
use go_portless.Errors.{Err, errorf, wrap, sentinel, route_exists, route_not_found}
use go_portless.Net.{itoa, pos}
use go_portless.Dial.{Result, ok, failed}
use go_portless.Control.{Reply, code_route_exists, code_route_not_found}

-- sentinelFor
unfoldable pub sentinel_for : Text → ℕ → Err
sentinel_for code status =
    if text_eq code code_route_exists
    then sentinel route_exists
    else if text_eq code code_route_not_found
    then sentinel route_not_found
    else errorf "http status %d" (itoa (pos status) ∷ [])

-- do, from what the transport answers, for a call that reads no body on success; `none` is nil.
-- The message is the error's text, or the status line if there is none.
unfoldable pub read_reply : Text → Text → Text → Result Reply → Option Err
read_reply method path message (failed e) = some (wrap "control: %s %s: %w" (method ∷ path ∷ []) e)
read_reply method path message (ok reply) =
    if leb 400 reply.status
    then some (
        wrap "control: %s %s: %s: %w" (method ∷ path ∷ message ∷ [])
          (sentinel_for reply.code reply.status))
    else none
