-- ===== src/K8s/Stream/Open.antt =====
-- What dialStream leaves registered, and the request numbers that it uses.
use go_portless.Common.{remove_first_head, ℕ, ◌≡◌, refl, ◌∷◌, arith}
use go_portless.Dial.{Result, ok, failed}
use go_portless.K8s.Stream.{
  PfConn, StreamConn, error_type, data_type, headers_of, new_stream_conn, data_created, Create,
  err_created, next_request, dial_stream,
}

-- Both streams or neither are registered; the counter has gone on by one.
abbrev pub DialOutcome : Create → PfConn → PfConn × Result StreamConn → Type 0
DialOutcome create c (c', failed e) = c' ≡ next_request c
DialOutcome create c (c', ok s) =
    (c' ≡ record (next_request c) { streams = s.data_stream ∷ s.err_stream ∷ c.streams })
    × (create (headers_of (next_request c) error_type) c.streams ≡ ok s.err_stream)
    × (create (headers_of (next_request c) data_type) (s.err_stream ∷ c.streams) ≡ ok s.data_stream)
    × (s ≡ new_stream_conn c s.err_stream s.data_stream)

data_created-DialOutcome :
    (create : Create) (c : PfConn) (es : ℕ) (answer : Result ℕ)
    → create (headers_of (next_request c) error_type) c.streams ≡ ok es
    → create (headers_of (next_request c) data_type) (es ∷ c.streams) ≡ answer
    → DialOutcome create c
        (data_created (record (next_request c) { streams = es ∷ c.streams }) es answer)
unfolding next_request
data_created-DialOutcome create c es (failed e) h k = ground (arith, remove_first_head es c.streams)
data_created-DialOutcome create c es (ok ds) h k = (refl, h, k, refl)

err_created-DialOutcome :
    (create : Create) (c : PfConn) (answer : Result ℕ)
    → create (headers_of (next_request c) error_type) c.streams ≡ answer
    → DialOutcome create c (err_created create (next_request c) answer)
unfolding next_request
err_created-DialOutcome create c (failed e) h = refl
err_created-DialOutcome create c (ok es) h =
    data_created-DialOutcome create c es
      (create (headers_of (next_request c) data_type) (es ∷ c.streams)) h refl

-- A dial of a stream leaks none. If it fails, whichever of the two streams could not be created,
-- the connection has the streams that it had; if it succeeds, the connection has two more, the error
-- stream and then the data stream of the answer, which CreateStream has answered in this order to
-- headers with the container's port and one new request number. Either way the counter has gone on
-- by one and nothing else of the connection has changed.
pub dial_stream-DialOutcome :
    (create : Create) (c : PfConn) → DialOutcome create c (dial_stream create c)
unfolding dial_stream next_request
dial_stream-DialOutcome create c =
    err_created-DialOutcome create c (create (headers_of (next_request c) error_type) c.streams)
      refl
