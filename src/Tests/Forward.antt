-- ===== src/Tests/Forward.antt =====
-- A channel that ends at once, while the connection still has something to say.
use rustmote.Prelude.{◌≡◌, refl, some, List, [], ◌∷◌, arith}
use rustmote.Text.{str}
use rustmote.Net.{v4}
use rustmote.Error.{ok}
use rustmote.Session.Forward.{
  got, written, Stream, Direction, up, down, joined, SocketAddr, Tunnel, proxy_one, shut_down,
  accepted, forwarder_loop,
}
use rustmote.Session.Forward.Copied.{copied, proxy_one-joined}

abbrev local : Stream
local = record { reads = got (104 ∷ 105 ∷ []) ∷ got (33 ∷ []) ∷ got [] ∷ []; writes = [] }

abbrev channel : Stream
channel = record { reads = got [] ∷ []; writes = written ∷ written ∷ [] }

abbrev tunnel : Tunnel
tunnel = record {
  channel_open_direct_tcpip = λ host port originator originator_port. ok channel;
  to_string = λ ip. str "127.0.0.1";
}

abbrev peer : SocketAddr
peer = record { ip = v4 2130706433; port = 50000 }

-- The channel ends first.
abbrev schedule : List Direction
schedule = down ∷ down ∷ up ∷ up ∷ up ∷ up ∷ up ∷ up ∷ []

goes : copied local.reads channel.writes ≡ some (104 ∷ 105 ∷ 33 ∷ [])
unfolding copied
goes = refl

comes : copied channel.reads local.writes ≡ some []
unfolding copied
comes = refl

-- No connection is taken after the shutdown.
taken_before_shut_down :
    forwarder_loop (accepted local peer ∷ shut_down ∷ accepted channel peer ∷ [])
    ≡ (local, peer) ∷ []
unfolding forwarder_loop
taken_before_shut_down = refl

proxy_one-joined_example :
    proxy_one tunnel schedule local peer 21116 ≡ joined (104 ∷ 105 ∷ 33 ∷ []) []
proxy_one-joined_example =
    proxy_one-joined tunnel schedule local channel peer 21116 (104 ∷ 105 ∷ 33 ∷ []) [] refl goes
      comes (omega arith) (omega arith)
