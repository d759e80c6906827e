-- ===== src/K8s/Stream/Tests.antt =====
-- Streams at concrete runs.
use go_portless.Common.{
  ◌≡◌, refl, true, false, none, some, [], ◌∷◌, arith, Text, codes, length, occurs,
}
use go_portless.Errors.{sentinel, net_closed}
use go_portless.Net.{pos}
use go_portless.Dial.{ok, failed}
use go_portless.K8s.Resolve.{Target}
use go_portless.K8s.Stream.{
  PfConn, StreamConn, store, Create, new_stream_conn, spdy_dial, close, arm_deadline, read,
}
use go_portless.K8s.Stream.Life.{
  drained, Sys, drain_reads, drain_closes, Reach, here, later, opened,
}
use go_portless.K8s.Stream.Closing.{IsOnce, opened-IsOnce}
use go_portless.K8s.Stream.Reports.{reported, read-reported}

abbrev web : Target
web = record { namespace = codes "shop"; pod = codes "web-0"; container_port = pos 8080 }

abbrev web_conn : PfConn
web_conn = record {
  conn = 1;
  pod_ref = codes "shop/web-0";
  container_port = pos 8080;
  request_id = 0;
  streams = 4 ∷ [];
}

-- The numbers go on by one; the connection takes two streams.
abbrev create_two : Create
create_two h (n ∷ []) = ok 5
create_two h _ = failed (sentinel net_closed)

spdy_dials :
    spdy_dial (λ url. true) (λ url. ok (length url)) none (codes "https://c") web
    ≡ some (
        ok (record {
          conn = 55;
          pod_ref = codes "shop/web-0";
          container_port = pos 8080;
          request_id = 0;
          streams = [];
        }))
unfolding spdy_dial
spdy_dials = refl

spdy_dial_panics : spdy_dial (λ url. false) (λ url. ok 1) none (codes "127.0.0.1:80") web ≡ none
unfolding spdy_dial
spdy_dial_panics = refl

abbrev stream : StreamConn
stream = new_stream_conn web_conn 5 6

abbrev with_both : PfConn
with_both = record web_conn { streams = 6 ∷ 5 ∷ 4 ∷ [] }

abbrev evicted : Sys
evicted = record (opened 10 with_both stream) {
  live = close (record {
    conn = with_both;
    stream = record stream { err_msg = some (codes "evicted") };
    closed_streams = [];
  });
  drain = drained (some (codes "evicted"));
}

evicted-Reach : Reach (opened 10 with_both stream) evicted
unfolding store
evicted-Reach = later (later here (drain_reads (ok (codes "evicted")) refl)) (drain_closes _ refl)

opened-IsOnce_example : IsOnce 6 5 evicted.live
unfolding occurs
opened-IsOnce_example =
    opened-IsOnce 10 with_both stream refl (λ e. absurd (omega arith)) refl refl evicted-Reach

read-reported_example :
    (read evicted.live.stream (0, some (sentinel net_closed))
      ≡ (0, some (reported (some (codes "evicted")) (sentinel net_closed))))
    × ((msg : Text) → evicted.drain ≡ drained (some msg) → evicted.live.stream.is_closed ≡ true)
read-reported_example = read-reported 10 with_both stream 0 (sentinel net_closed) refl evicted-Reach

-- A deadline of 20 is lifted at 10, and the time is 30.
abbrev lifted : Sys
lifted = record (opened 30 with_both stream) {
  live = arm_deadline 10 none (arm_deadline 10 (some 20) (opened 10 with_both stream).live);
}
