-- ===== src/Session/Forward/Copied.antt =====
-- crates/rustmote-core/src/session/mod.rs, `proxy_one`: the two directions do not hold each other up.
use rustmote.Prelude.{
  ℕ, suc, ◌*◌, ◌≤◌, ◌≡◌, refl, sym, ap, ◌∙◌, true, Option, none, some, List, [], ◌∷◌, ◌++◌,
  append_assoc, append-nil, length, arith,
}
use rustmote.Text.{str}
use rustmote.Error.{ok}
use rustmote.Session.Forward.{
  ReadAnswer, got, read_failed, WriteAnswer, written, write_failed, Stream, Phase, reading, writing,
  closed, Copy, is_closed, at_phase, advance, Direction, up, down, joined, try_join, SocketAddr,
  Tunnel, copy_between, proxy_one,
}

abbrev then_bytes : List ℕ → Option (List ℕ) → Option (List ℕ)
then_bytes bytes none = none
then_bytes bytes (some rest) = some (bytes ++ rest)

-- What a copy of a whole stream writes, if the stream has an end and no call fails: its bytes.
unfoldable pub copied : List ReadAnswer → List WriteAnswer → Option (List ℕ)
copied [] writes = none
copied (read_failed why ∷ reads) writes = none
copied (got [] ∷ reads) writes = some []
copied (got (byte ∷ bytes) ∷ reads) [] = none
copied (got (byte ∷ bytes) ∷ reads) (write_failed why ∷ writes) = none
copied (got (byte ∷ bytes) ∷ reads) (written ∷ writes) =
    then_bytes (byte ∷ bytes) (copied reads writes)

-- What a block writes from where it is.
rest_of : Phase → List ReadAnswer → List WriteAnswer → Option (List ℕ)
rest_of reading reads writes = copied reads writes
rest_of (writing buf) reads [] = none
rest_of (writing buf) reads (write_failed why ∷ writes) = none
rest_of (writing buf) reads (written ∷ writes) = then_bytes buf (copied reads writes)
rest_of closed reads writes = some []

-- The calls that a block makes from where it is, at most.
calls_left : Phase → List ReadAnswer → ℕ
calls_left reading reads = 2 * length reads
calls_left (writing buf) reads = suc (2 * length reads)
calls_left closed reads = 0

-- How often a direction has its turn.
abbrev pub turns_of_up : List Direction → ℕ
turns_of_up [] = 0
turns_of_up (up ∷ rest) = suc (turns_of_up rest)
turns_of_up (down ∷ rest) = turns_of_up rest

abbrev pub turns_of_down : List Direction → ℕ
turns_of_down [] = 0
turns_of_down (up ∷ rest) = turns_of_down rest
turns_of_down (down ∷ rest) = suc (turns_of_down rest)

-- The block writes all of a text in a number of calls.
record Delivers (c : Copy) (bytes : List ℕ) (calls : ℕ) : Type 0 where
  rest : List ℕ
  to_come : rest_of c.phase c.reads c.writes ≡ some rest
  adds_up : c.delivered ++ rest ≡ bytes
  in_time : calls_left c.phase c.reads ≤ calls

then_bytes-some :
    (bytes : List ℕ) (o : Option (List ℕ)) {all : List ℕ}
    → then_bytes bytes o ≡ some all
    → (rest : List ℕ) × (o ≡ some rest) × (all ≡ bytes ++ rest)
then_bytes-some bytes none said = absurd cc
then_bytes-some bytes (some rest) said = (rest, refl, cc)

-- A turn of a block that is to deliver a text takes it one call nearer.
advance-Delivers :
    (phase : Phase) (reads : List ReadAnswer) (writes : List WriteAnswer) (out bytes : List ℕ)
    (calls : ℕ)
    → Delivers (at_phase phase reads writes out) bytes (suc calls)
    → (c : Copy) × (advance phase reads writes out ≡ ok c) × Delivers c bytes calls
unfolding advance rest_of copied calls_left
advance-Delivers reading [] writes out bytes calls d = absurd (ground (arith, d.to_come))
advance-Delivers reading (read_failed why ∷ reads) writes out bytes calls d =
    absurd (ground (arith, d.to_come))
advance-Delivers reading (got [] ∷ reads) writes out bytes calls d = (
  _,
  refl,
  record { rest = d.rest; to_come = d.to_come; adds_up = d.adds_up; in_time = omega arith },
)
advance-Delivers reading (got (byte ∷ bytes) ∷ reads) [] out all calls d =
    absurd (ground (arith, d.to_come))
advance-Delivers reading (got (byte ∷ bytes) ∷ reads) (write_failed why ∷ writes) out all calls d =
    absurd (ground (arith, d.to_come))
advance-Delivers reading (got (byte ∷ bytes) ∷ reads) (written ∷ writes) out all calls d =
    let soon = d.in_time in
    (
      _,
      refl,
      record { rest = d.rest; to_come = d.to_come; adds_up = d.adds_up; in_time = omega arith },
    )
advance-Delivers (writing buf) reads [] out bytes calls d = absurd (ground (arith, d.to_come))
advance-Delivers (writing buf) reads (write_failed why ∷ writes) out bytes calls d =
    absurd (ground (arith, d.to_come))
advance-Delivers (writing buf) reads (written ∷ writes) out bytes calls d =
    let (rest, to_come, whole) = then_bytes-some buf (copied reads writes) d.to_come in
    let soon = d.in_time in
    (
      _,
      refl,
      record {
        rest = rest;
        to_come = to_come;
        adds_up = append_assoc out buf rest ∙ ap (λ r. out ++ r) (sym whole) ∙ d.adds_up;
        in_time = omega arith;
      },
    )
advance-Delivers closed reads writes out bytes calls d = (
  _,
  refl,
  record { rest = d.rest; to_come = d.to_come; adds_up = d.adds_up; in_time = omega arith },
)

-- With no call left the block has ended and has written its text.
closed-Delivers :
    (phase : Phase) (reads : List ReadAnswer) (writes : List WriteAnswer) (out bytes : List ℕ)
    → Delivers (at_phase phase reads writes out) bytes 0
    → (is_closed phase ≡ true) × (out ≡ bytes)
unfolding rest_of copied calls_left
closed-Delivers reading [] writes out bytes d = absurd (ground (arith, d.to_come))
closed-Delivers reading (r ∷ reads) writes out bytes d =
    let soon = d.in_time in absurd (omega arith)
closed-Delivers (writing buf) reads writes out bytes d =
    let soon = d.in_time in absurd (omega arith)
closed-Delivers closed reads writes out bytes d =
    let nothing : [] ≡ d.rest = cc in
    (refl, sym (append-nil out) ∙ ap (λ r. out ++ r) nothing ∙ d.adds_up)

-- Two blocks that are to deliver their texts do so under every schedule with turns enough.
try_join-Delivers :
    (schedule : List Direction) (a b : Copy) (sent received : List ℕ)
    → Delivers a sent (turns_of_up schedule)
    → Delivers b received (turns_of_down schedule)
    → try_join schedule a b ≡ joined sent received
unfolding try_join
try_join-Delivers [] a b sent received goes comes =
    let (ended, is_sent) = closed-Delivers a.phase a.reads a.writes a.delivered sent goes in
    let (ended', is_received) =
      closed-Delivers b.phase b.reads b.writes b.delivered received comes in
    rw (try_join, ended, ended', is_sent, is_received) refl
try_join-Delivers (up ∷ rest) a b sent received goes comes =
    let (a', turned, goes') =
      advance-Delivers a.phase a.reads a.writes a.delivered sent (turns_of_up rest) goes in
    rw (try_join, turned) (try_join-Delivers rest a' b sent received goes' comes)
try_join-Delivers (down ∷ rest) a b sent received goes comes =
    let (b', turned, comes') =
      advance-Delivers b.phase b.reads b.writes b.delivered received (turns_of_down rest) comes in
    rw (try_join, turned) (try_join-Delivers rest a b' sent received goes comes')

-- Where the channel opens, and each of the two streams has an end and no call on it fails: under
-- every schedule with two turns for each read of a direction, the pair ends with all that the
-- connection said written to the channel and all that the channel said written to the connection,
-- whichever of the two says nothing more first.
pub proxy_one-joined :
    (T : Tunnel) (schedule : List Direction) (local channel : Stream) (peer : SocketAddr)
    (remote_port : ℕ) (sent received : List ℕ)
    → T.channel_open_direct_tcpip (str "127.0.0.1") remote_port (T.to_string peer.ip) peer.port
      ≡ ok channel
    → copied local.reads channel.writes ≡ some sent
    → copied channel.reads local.writes ≡ some received
    → 2 * length local.reads ≤ turns_of_up schedule
    → 2 * length channel.reads ≤ turns_of_down schedule
    → proxy_one T schedule local peer remote_port ≡ joined sent received
unfolding proxy_one rest_of calls_left
proxy_one-joined T schedule local channel peer remote_port sent received opened goes comes up_turns
      down_turns =
    rw (proxy_one, opened)
      (try_join-Delivers schedule (copy_between local channel) (copy_between channel local) sent
        received (record { rest = sent; to_come = goes; adds_up = refl; in_time = up_turns })
        (record { rest = received; to_come = comes; adds_up = refl; in_time = down_turns }))
