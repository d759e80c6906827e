-- ===== src/Proxy/Forward.antt =====
-- proxy/forward.go: forward, from a request to the reply, where what the transport answers is given;
-- applyHostRewrite and stripHopByHop are `forwarded` and `strip_hop_by_hop` of the module Proxy.
pub mod Copied
use go_portless.Common.{ℕ, Option, List, [], ◌∷◌, ◌++◌, Text, insert}
use go_portless.Errors.{Err}
use go_portless.Dial.{Result, ok, failed}
use go_portless.Http.{Request}
use go_portless.Proxy.{Header, canonical, values, strip_hop_by_hop, forwarded}

-- Header.Add
unfoldable pub header_add : Text → Text → Header → Header
header_add key v h = insert (canonical key) (values key h ++ v ∷ []) h

unfoldable pub add_values : Text → List Text → Header → Header
add_values key [] h = h
add_values key (v ∷ vs) h = add_values key vs (header_add key v h)

-- The loop over the header of the backend's response.
unfoldable pub copy_header : Header → Header → Header
copy_header [] to = to
copy_header ((key, vs) ∷ from) to = copy_header from (add_values key vs to)

pub record Response : Type 0 where
  pub status : ℕ
  pub header : Header
  pub body : Text

-- What the client gets: http.Error with 502, or a copy of the response.
pub data Replied : Type 0 where
  gateway_error : Err → Replied
  copied : Response → Replied

abbrev pub forward_reply : Result Response → Replied
forward_reply (failed e) = gateway_error e
forward_reply (ok resp) = copied (record {
  status = resp.status;
  header = copy_header (strip_hop_by_hop resp.header) [];
  body = resp.body;
})

-- forward, with the header of the reply empty at first.
unfoldable pub forward :
    (Text → Option Text) → (Request × Header → Result Response) → Request → Header → Replied
forward host_rewrite transport q h = forward_reply (transport (forwarded host_rewrite q h))
