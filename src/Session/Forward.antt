-- ===== src/Session/Forward.antt =====
-- crates/rustmote-core/src/session/mod.rs, the port forwarder: which connections `forwarder_loop`
-- hands to a proxy, and how `proxy_one` copies between a connection and its channel.
pub mod Copied
use rustmote.Prelude.{ℕ, Bool, true, false, ◌&&◌, List, [], ◌∷◌, ◌++◌}
use rustmote.Text.{Text, str}
use rustmote.Net.{IpAddr}
use rustmote.Error.{RustmoteError, IoError, Result, ok, err, io}

-- How a read and a `write_all` of a stream end. A read of no bytes is its end.
pub data ReadAnswer : Type 0 where
  got : (bytes : List ℕ) → ReadAnswer
  read_failed : (why : IoError) → ReadAnswer

pub data WriteAnswer : Type 0 where
  written : WriteAnswer
  write_failed : (why : IoError) → WriteAnswer

-- What a stream answers to its reads and to its writes, one after the other. Where an answer is
-- missing the call waits for ever.
pub record Stream : Type 0 where
  pub reads : List ReadAnswer
  pub writes : List WriteAnswer

-- Where the loop of a direction is: before its read, before its write, or past its end, with the
-- other stream shut down.
pub data Phase : Type 0 where
  reading : Phase
  writing : (buf : List ℕ) → Phase
  closed : Phase

-- One of the two `async` blocks: the answers that it has not had yet, and what it has written.
pub record Copy : Type 0 where
  pub phase : Phase
  pub reads : List ReadAnswer
  pub writes : List WriteAnswer
  pub delivered : List ℕ

abbrev pub is_closed : Phase → Bool
is_closed reading = false
is_closed (writing buf) = false
is_closed closed = true

abbrev pub at_phase : Phase → List ReadAnswer → List WriteAnswer → List ℕ → Copy
at_phase phase reads writes delivered = record {
  phase = phase;
  reads = reads;
  writes = writes;
  delivered = delivered;
}

-- A block goes on until it waits for its next call.
unfoldable pub advance : Phase → List ReadAnswer → List WriteAnswer → List ℕ → Result Copy
advance reading [] writes out = ok (at_phase reading [] writes out)
advance reading (read_failed why ∷ reads) writes out = err (io why)
advance reading (got [] ∷ reads) writes out = ok (at_phase closed reads writes out)
advance reading (got (byte ∷ bytes) ∷ reads) writes out =
    ok (at_phase (writing (byte ∷ bytes)) reads writes out)
advance (writing buf) reads [] out = ok (at_phase (writing buf) reads [] out)
advance (writing buf) reads (write_failed why ∷ writes) out = err (io why)
advance (writing buf) reads (written ∷ writes) out = ok (at_phase reading reads writes (out ++ buf))
advance closed reads writes out = ok (at_phase closed reads writes out)

abbrev pub turn : Copy → Result Copy
turn c = advance c.phase c.reads c.writes c.delivered

pub data Direction : Type 0 where
  up down : Direction

-- What becomes of the pair: both blocks have ended, with what each has written; one has failed, which
-- drops the other; or neither.
pub data PairOutcome : Type 0 where
  joined : (sent received : List ℕ) → PairOutcome
  failed : (why : RustmoteError) → PairOutcome
  pending : PairOutcome

-- `tokio::try_join!` of the two blocks, where the schedule says whose call is answered next.
unfoldable pub try_join : List Direction → Copy → Copy → PairOutcome
try_join [] a b = elim (is_closed a.phase && is_closed b.phase) [
  | true ↦ joined a.delivered b.delivered
  | false ↦ pending
]
try_join (up ∷ rest) a b = elim (turn a) [ ok a' ↦ try_join rest a' b | err why ↦ failed why ]
try_join (down ∷ rest) a b = elim (turn b) [ ok b' ↦ try_join rest a b' | err why ↦ failed why ]

pub record SocketAddr : Type 0 where
  pub ip : IpAddr
  pub port : ℕ

-- The calls of the SSH crate and of the standard library: the channel, and the text of an address.
pub record Tunnel : Type 0 where
  pub channel_open_direct_tcpip :
      (host : Text) (port : ℕ) (originator : Text) (originator_port : ℕ) → Result Stream
  pub to_string : IpAddr → Text

-- The connection writes what it reads to the channel, and the channel to the connection.
abbrev pub copy_between : Stream → Stream → Copy
copy_between from to = at_phase reading from.reads to.writes []

unfoldable pub proxy_one :
    Tunnel → List Direction → (local : Stream) (peer : SocketAddr) (remote_port : ℕ) → PairOutcome
proxy_one T schedule local peer remote_port =
    elim (T.channel_open_direct_tcpip (str "127.0.0.1") remote_port (T.to_string peer.ip)
      peer.port) [
        | err why ↦ failed why
        | ok channel ↦ try_join schedule (copy_between local channel) (copy_between channel local)
      ]

-- What `tokio::select!` wakes up for.
pub data Wakeup : Type 0 where
  shut_down : Wakeup
  proxy_error : (why : RustmoteError) → Wakeup
  accepted : (local : Stream) (peer : SocketAddr) → Wakeup
  accept_failed : (why : IoError) → Wakeup

-- The connections that get a proxy.
unfoldable pub forwarder_loop : List Wakeup → List (Stream × SocketAddr)
forwarder_loop [] = []
forwarder_loop (shut_down ∷ rest) = []
forwarder_loop (proxy_error why ∷ rest) = forwarder_loop rest
forwarder_loop (accepted local peer ∷ rest) = (local, peer) ∷ forwarder_loop rest
forwarder_loop (accept_failed why ∷ rest) = []
