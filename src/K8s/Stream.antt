-- ===== src/K8s/Stream.antt =====
-- k8s/stream.go: the connection to a pod, the pair of streams that a dial opens over it, and the
-- data stream as a connection, with its deadlines and its error stream.
-- The SPDY library is an argument: what dialing and CreateStream answer. A stream is a number.
pub mod Open
pub mod Life
pub mod Closing
pub mod Reports
pub mod Deadlines
mod Tests
use go_portless.Common.{
  remove_first, ℕ, ◌+◌, ◌-◌, ◌%◌, ◌^◌, Bool, true, false, Option, none, some, List, [], ◌∷◌, ◌++◌,
  ltb, leb, if◌then◌else◌, Text, codes,
}
use go_portless.Errors.{Err, errorf, wrap}
use go_portless.Net.{ℤ, pos, negsuc, itoa}
use go_portless.Dial.{Result, ok, failed}
use go_portless.K8s.Resolve.{Target}

-- pfConn: the streams are those registered at the httpstream connection; the request counter is
-- the bit pattern of an int64.
pub record PfConn : Type 0 where
  pub conn : ℕ
  pub pod_ref : Text
  pub container_port : ℤ
  pub request_id : ℕ
  pub streams : List ℕ

pub data StreamType : Type 0 where
  error_type data_type : StreamType

-- The headers of CreateStream.
pub record Headers : Type 0 where
  pub port : Text
  pub request_id : Text
  pub stream_type : StreamType

-- streamConn: the two streams and the addresses, whether closeOnce has run, what the error stream
-- has said, and the times for which armDeadline has set a timer.
pub record StreamConn : Type 0 where
  pub data_stream : ℕ
  pub err_stream : ℕ
  pub local_addr : Text
  pub remote_addr : Text
  pub is_closed : Bool
  pub err_msg : Option Text
  pub timers : List ℕ

-- hostFromConfig
unfoldable pub host_from_config : Text → Result Text
host_from_config [] = failed (errorf "k8s: rest.Config has no host" [])
host_from_config (c ∷ s) = ok (c ∷ s)

unfoldable pub portforward_url : Text → Target → Text
portforward_url host t =
    host
    ++ (codes "/api/v1/namespaces/"
        ++ (t.namespace ++ (codes "/pods/" ++ (t.pod ++ codes "/portforward"))))

abbrev pub connected_to : Target → Result ℕ → Result PfConn
connected_to t (failed e) = failed (wrap "dial portforward: %w" [] e)
connected_to t (ok conn) = ok (record {
  conn = conn;
  pod_ref = t.namespace ++ (codes "/" ++ t.pod);
  container_port = t.container_port;
  request_id = 0;
  streams = [];
})

-- mustParseURL, given whether url.Parse accepts the text; `none` is its panic.
unfoldable pub must_parse_url : (Text → Bool) → Text → Option Text
must_parse_url parses s = if parses s then some s else none

abbrev pub dial_at :
    (Text → Bool) → (Text → Result ℕ) → Target → Result Text → Option (Result PfConn)
dial_at parses dialer t (failed e) = some (failed e)
dial_at parses dialer t (ok host) = elim (must_parse_url parses (portforward_url host t)) [
  | none ↦ none
  | some url ↦ some (connected_to t (dialer url))
]

abbrev pub spdy_built :
    (Text → Bool) → (Text → Result ℕ) → Text → Target → Option Err → Option (Result PfConn)
spdy_built parses dialer host t (some e) = some (failed (wrap "spdy roundtripper: %w" [] e))
spdy_built parses dialer host t none = dial_at parses dialer t (host_from_config host)

-- spdyDialer.dial, given the answers of RoundTripperFor, url.Parse and the SPDY dialer.
unfoldable pub spdy_dial :
    (Text → Bool) → (Text → Result ℕ) → Option Err → Text → Target → Option (Result PfConn)
unfolding host_from_config must_parse_url portforward_url
spdy_dial parses dialer tripper host t = spdy_built parses dialer host t tripper

-- An int64, by its bit pattern.
unfoldable pub as_int64 : ℕ → ℤ
as_int64 n = if ltb n (2 ^ 63) then pos n else negsuc (2 ^ 64 - 1 - n)

abbrev pub headers_of : PfConn → StreamType → Headers
headers_of c t = record {
  port = itoa c.container_port;
  request_id = itoa (as_int64 c.request_id);
  stream_type = t;
}

abbrev pub new_stream_conn : PfConn → ℕ → ℕ → StreamConn
new_stream_conn c es ds = record {
  data_stream = ds;
  err_stream = es;
  local_addr = codes "portforward:local";
  remote_addr = codes "portforward:" ++ (c.pod_ref ++ (codes ":" ++ itoa c.container_port));
  is_closed = false;
  err_msg = none;
  timers = [];
}

abbrev pub data_created : PfConn → ℕ → Result ℕ → PfConn × Result StreamConn
data_created c es (failed e) =
    (record c { streams = remove_first es c.streams }, failed (wrap "create data stream: %w" [] e))
data_created c es (ok ds) = (record c { streams = ds ∷ c.streams }, ok (new_stream_conn c es ds))

-- What CreateStream answers, given its headers and the streams that are registered.
abbrev pub Create : Type 0
Create = Headers → List ℕ → Result ℕ

abbrev pub err_created : Create → PfConn → Result ℕ → PfConn × Result StreamConn
err_created create c (failed e) = (c, failed (wrap "create error stream: %w" [] e))
err_created create c (ok es) =
    let c' = record c { streams = es ∷ c.streams } in
    data_created c' es (create (headers_of c' data_type) c'.streams)

-- requestID.Add(1)
unfoldable pub next_request : PfConn → PfConn
next_request c = record c { request_id = (c.request_id + 1) % 2 ^ 64 }

-- dialStream, up to the start of drainError.
unfoldable pub dial_stream : Create → PfConn → PfConn × Result StreamConn
dial_stream create c =
    let c' = next_request c in err_created create c' (create (headers_of c' error_type) c'.streams)

-- A stream in use: the connection under it, the stream, and the streams whose Close was called.
pub record Live : Type 0 where
  pub conn : PfConn
  pub stream : StreamConn
  pub closed_streams : List ℕ

-- Close; it returns nil.
unfoldable pub close : Live → Live
close s = if s.stream.is_closed then s else record {
  conn = record s.conn {
    streams = remove_first s.stream.err_stream (remove_first s.stream.data_stream s.conn.streams);
  };
  stream = record s.stream { is_closed = true };
  closed_streams = s.stream.data_stream ∷ s.stream.err_stream ∷ s.closed_streams;
}

-- armDeadline at the time now, which SetDeadline, SetReadDeadline and SetWriteDeadline call; the
-- zero time is `none`.
unfoldable pub arm_deadline : ℕ → Option ℕ → Live → Live
arm_deadline now none s = s
arm_deadline now (some t) s =
    if leb t now
    then close s
    else record s { stream = record s.stream { timers = t ∷ s.stream.timers } }

abbrev pub message_of : Result Text → Option Text
message_of (failed e) = none
message_of (ok []) = none
message_of (ok (c ∷ msg)) = some (c ∷ msg)

-- drainError until its call of Close: what ReadAll answers, if it is a message, is kept.
unfoldable pub store : Result Text → Live → Live
store answer s = elim (message_of answer) [
  | none ↦ s
  | some msg ↦ record s { stream = record s.stream { err_msg = some msg } }
]

abbrev pub read_failed : Option Text → Err → Err
read_failed none e = e
read_failed (some []) e = e
read_failed (some (c ∷ msg)) e = errorf "portforward: %s" ((c ∷ msg) ∷ [])

-- Read, given what the data stream answers: the number of bytes and an error or nil.
unfoldable pub read : StreamConn → ℕ × Option Err → ℕ × Option Err
read s (n, none) = (n, none)
read s (n, some e) = (n, some (read_failed s.err_msg e))
