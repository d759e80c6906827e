-- ===== src/Lib.antt =====
-- go-portless routes dials by name: a Registry maps names to backends, and a dial of "name:port"
-- waits until the backend of that name is ready. This library models the registry and what stands
-- around it, and proves what its users rely on.
--
-- The parts, and the files that model them (paths from the repository's root):
-- - Errors: errors.go. The error trees of fmt.Errorf and errors.Join, errors.Is, Retryable and
--   IsRetryable.
-- - Net: net.SplitHostPort, net.JoinHostPort, net.ParseIP, strconv.Itoa and strconv.Atoi as far as
--   the program uses them, and hostOf of middleware.go.
-- - Dial: middleware.go, events.go, backend.go and the configuration records of options.go. A dial
--   function takes a context and a world (the clock, the events emitted, the connections closed,
--   what Close answers for each, when another goroutine closes the registry, and an environment of
--   any type that backends read and change) and returns a result and a world.
-- - Options: the options of options.go, as functions on the configurations; Options/Health the health
--   checks for HTTP and TLS.
-- - Backoff: internal/backoff/backoff.go. A time.Duration is a 64-bit pattern; what rand draws is
--   an argument.
-- - Route: route.go. The compiled dial chain, the port map, the port of a bridge.
-- - Readiness: dialRoute of registry.go, with dialWaitError.
-- - HostRule: validateHostRewrite and allDigits of http.go.
-- - Registry: registry.go and ListenLocal of listenlocal.go. Registry/Ops has the operations after
--   Add, Registry/Bootstrap has Ready of several names; Registry/Lifecycle takes the lock sections
--   of Add, Remove and Close as steps of any number of goroutines, in any order.
-- - Http: HostRewrite, the round tripper and the URL builders of http.go.
-- - Bridge: bridgeAccept and bridgeConn of listenlocal.go, up to the copies.
-- - Pipe: the two copies of bridgeConn and of tunnel in proxy/connect.go, as steps that are taken in
--   any order, with what each end has sent, and which halves are closed.
-- - Control: control/server.go and control/spec.go; Control/Client the reading of replies in
--   control/client.go; Control/Factories the factory of spec.go for tcp; Control/Socket is
--   control/socket.go.
-- - K8s: k8s/resolve.go and k8s/portforward.go; the cluster's objects and its API are in
--   K8s/Cluster, and K8s/Forward/Interleaved takes the lock sections of the port forward as steps.
--   K8s/Stream is k8s/stream.go, with the life of a stream as steps of its users, its timers and
--   the goroutine that drains its errors; K8s/Register is k8s/register.go.
-- - Backends: backend/tcp.go, future.go, listener.go and ports.go; the plain dialer and the
--   system's listeners are arguments. Backends/Parse is backend/parse.go, Backends/Mem is
--   backend/mem.go as steps.
-- - Proxy: the dispatch of proxy/proxy.go, the headers of proxy/forward.go, the target of
--   proxy/tls.go; Proxy/Connect the two handlers of CONNECT, in proxy/connect.go and proxy/tls.go,
--   Proxy/Forward the reply of forward.
-- - Ca: the leaf certificates of ca/ca.go and their serial numbers; Ca/Storage the authority and
--   its two files.
-- - Cli: cut of cmd/portless/run.go, splitName and the spec of routeAdd in cmd/portless/route.go.
--   Cli/Main is main.go, run.go and doctor.go of that directory, Cli/Daemon its daemon.go, Cli/Trust
--   its ca.go, Cli/Serve its serve.go, and Cli/Routing is alias.go and the rest of route.go.
-- Common has what they share, Fixtures what their tests share.
--
-- How they interact: Add builds a Route from a backend and the options, and DialContext finds it
-- by hostOf and hands the dial to Readiness, which calls the route's chain and waits with Backoff
-- as long as Errors says that an error is retryable. Http reads the registry by Lookup, Control
-- calls Add, Remove, Lookup and Ready, and the backends of Backends and K8s are what Add is given.
--
-- Conventions. An operation that the source runs in several lock sections is the sequence of a
-- function for each. A map is an association list, in the order of its entries where the source
-- ranges over it. Texts are lists of bytes and taken to be ASCII, which is what ToLower matters
-- for. Times are nanoseconds from 0. Where several cases of a select are ready at once, the
-- context comes first, then the closed registry, then the timer.
--
-- Fuel: the readiness loop takes one for each attempt. Two attempts are at least 18.75 ms apart,
-- 25 ms less a quarter of jitter, so that the time to the deadline divided by this, and one more, is
-- enough. parseFlags takes one for each argument, and one more. ensureDaemon polls every 50 ms for
-- 5 s, which 102 are enough for.
--
-- Not modelled: the loggers; the HTTP transports, which are configuration of net/http; JSON and
-- cryptography, whose answers are arguments; the listening of the proxy and its transport;
-- the commands env, status and `route list`, which print what the daemon answers.
pub mod Common
pub mod Backoff
pub mod Errors
pub mod Net
pub mod Dial
pub mod Route
pub mod Readiness
pub mod HostRule
pub mod Options
pub mod Registry
pub mod Http
pub mod Pipe
pub mod Bridge
pub mod Proxy
pub mod Ca
pub mod Cli
pub mod Backends
pub mod Fixtures
pub mod Control
pub mod K8s
