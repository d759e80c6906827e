-- ===== src/Pipe.antt =====
-- listenlocal.go, bridgeConn once the route has been dialed, and tunnel of proxy/connect.go: two
-- goroutines that copy between two connections, and what they close when a copy ends.
-- What runs meanwhile (the peers of both connections, the registry's Close) is part of the steps.
-- A write waits while the peer of its connection does not read. The left connection is the client's,
-- the right one the backend's.
pub mod Flow
pub mod Fair
pub mod Orderly
pub mod Complete
pub mod Ending
pub mod Waiting
mod Tests
use go_portless.Common.{◌≡◌, ◌≢◌, Bool, true, false, not, ◌||◌, [], ◌++◌, if◌then◌else◌, Text}

-- A connection: what its peer has sent so far, the end of it that the program has not read, whether
-- the peer has ended its stream or the connection is broken, what the program has written to it,
-- whether the program has called CloseWrite and Close, and whether the peer has stopped reading, with
-- all buffers on the way full.
pub record End : Type 0 where
  pub sent : Text
  pub inbound : Text
  pub ended : Bool
  pub broken : Bool
  pub received : Text
  pub write_closed : Bool
  pub closed : Bool
  pub stalled : Bool

-- io.Copy: the bytes that are read and not yet written, and whether it has returned and what
-- follows it has run.
pub record Copy : Type 0 where
  pub buf : Text
  pub finished : Bool

-- Read answers an error or EOF, once what is left is read.
abbrev pub read_over : End → Bool
read_over e = e.closed || e.broken

abbrev pub writable : End → Bool
writable e = not (e.closed || e.broken || e.write_closed)

-- What follows a copy: nothing, CloseWrite of its destination, Close of its destination, Close of
-- both connections.
pub data Closing : Type 0 where
  leave_open close_write close_dst close_both : Closing

abbrev pub shut_down : End → End
shut_down e = record e { closed = true }

-- The source and the destination after a copy.
unfoldable pub ending : Closing → End → End → End × End
ending leave_open src dst = (src, dst)
ending close_write src dst = (src, record dst { write_closed = true })
ending close_dst src dst = (src, shut_down dst)
ending close_both src dst = (shut_down src, shut_down dst)

-- What follows the copy to the right and the one to the left, and whether the closing of the
-- registry closes the left connection.
pub record Policy : Type 0 where
  pub up_closing : Closing
  pub down_closing : Closing
  pub shuts : Bool

-- bridgeConn, given which of the connections have CloseWrite.
unfoldable pub bridge : Bool → Bool → Policy
bridge left_half right_half = record {
  up_closing = if right_half then close_write else leave_open;
  down_closing = if left_half then close_write else close_dst;
  shuts = true;
}

-- tunnel, once in each direction.
unfoldable pub tunnel : Bool → Bool → Policy
tunnel left_half right_half = record {
  up_closing = if right_half then close_write else close_both;
  down_closing = if left_half then close_write else close_both;
  shuts = false;
}

-- A step of one copy, from the source to the destination: a read of some bytes, a write of those
-- that are read, which is not possible while the destination's peer does not read, or the end of
-- the copy, after a write that fails or a read that answers an error or EOF.
pub data Pump (k : Closing) (src : End) (c : Copy) (dst : End) : End → Copy → End → Type 0 where
  read :
      (xs ys : Text)
      → c.finished ≡ false
      → c.buf ≡ []
      → read_over src ≡ false
      → src.inbound ≡ xs ++ ys
      → xs ≢ []
      → Pump k src c dst (record src { inbound = ys }) (record c { buf = xs }) dst
  write :
      c.finished ≡ false
      → c.buf ≢ []
      → writable dst ≡ true
      → dst.stalled ≡ false
      → Pump k src c dst src
          (record c { buf = [] })
          (record dst { received = dst.received ++ c.buf })
  write_fails :
      c.finished ≡ false
      → c.buf ≢ []
      → writable dst ≡ false
      → Pump k src c dst (ending k src dst).0 (record c { finished = true }) (ending k src dst).1
  read_fails :
      c.finished ≡ false
      → c.buf ≡ []
      → read_over src ≡ true
      → Pump k src c dst (ending k src dst).0 (record c { finished = true }) (ending k src dst).1
  read_eof :
      c.finished ≡ false
      → c.buf ≡ []
      → src.inbound ≡ []
      → src.ended ≡ true
      → Pump k src c dst (ending k src dst).0 (record c { finished = true }) (ending k src dst).1

-- The peer of a connection sends some bytes, ends its stream, stops reading or reads on, or the
-- connection breaks.
pub data Peer (e : End) : End → Type 0 where
  sends :
      (bs : Text)
      → e.ended ≡ false
      → Peer e (record e { sent = e.sent ++ bs; inbound = e.inbound ++ bs })
  ends : Peer e (record e { ended = true })
  reads : (stalled : Bool) → Peer e (record e { stalled = stalled })
  breaks : Peer e (record e { broken = true })

-- Both connections, both copies, whether the function has returned, and whether the registry has
-- closed the left connection.
pub record Pair : Type 0 where
  pub left : End
  pub right : End
  pub up : Copy
  pub down : Copy
  pub over : Bool
  pub was_shut : Bool

-- The steps of the program itself; the last one runs the deferred Close calls.
pub data Own (p : Policy) (s : Pair) : Pair → Type 0 where
  pump_up :
      {l r : End} {c : Copy}
      → Pump p.up_closing s.left s.up s.right l c r
      → Own p s (record s { left = l; up = c; right = r })
  pump_down :
      {l r : End} {c : Copy}
      → Pump p.down_closing s.right s.down s.left r c l
      → Own p s (record s { left = l; down = c; right = r })
  leave :
      s.up.finished ≡ true
      → s.down.finished ≡ true
      → s.over ≡ false
      → Own p s (record s { left = shut_down s.left; right = shut_down s.right; over = true })

-- The registry closes: the client's connection is closed.
pub data Shut (p : Policy) (s : Pair) : Pair → Type 0 where
  shut : p.shuts ≡ true → Shut p s (record s { left = shut_down s.left; was_shut = true })

pub data Step (p : Policy) (s : Pair) : Pair → Type 0 where
  own : {t : Pair} → Own p s t → Step p s t
  shuts : {t : Pair} → Shut p s t → Step p s t
  left_peer : {l : End} → Peer s.left l → Step p s (record s { left = l })
  right_peer : {r : End} → Peer s.right r → Step p s (record s { right = r })

abbrev pub fresh : End
fresh = record {
  sent = [];
  inbound = [];
  ended = false;
  broken = false;
  received = [];
  write_closed = false;
  closed = false;
  stalled = false;
}

-- Both connections are open and nothing has been sent.
abbrev pub opened : Pair
opened = record {
  left = fresh;
  right = fresh;
  up = record { buf = []; finished = false };
  down = record { buf = []; finished = false };
  over = false;
  was_shut = false;
}

pub data Reach (p : Policy) : Pair → Type 0 where
  start : Reach p opened
  later : {s t : Pair} → Reach p s → Step p s t → Reach p t
