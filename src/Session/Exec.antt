-- ===== src/Session/Exec.antt =====
-- crates/rustmote-core/src/session/mod.rs, `ExecOutput` and `RemoteExec for Session`: the result of
-- a remote command, and how it is collected from the messages of a channel.
pub mod Collected
use rustmote.Prelude.{ℕ, List, [], ◌∷◌, ◌++◌, ◌==◌, if◌then◌else◌}
use rustmote.Text.{Text}
use rustmote.Effect.{Io, gets, pure, ◌>>=◌, ◌>>◌}
use rustmote.Error.{Result, ok, err, remote_command_failed}

pub record ExecOutput : Type 0 where
  pub stdout : List ℕ
  pub stderr : List ℕ
  pub exit_code : ℕ

-- `lossy` is `String::from_utf8_lossy`.
unfoldable pub ok_for : (lossy : List ℕ → Text) → ExecOutput → Text → Result ExecOutput
ok_for lossy out command =
    if out.exit_code == 0
    then ok out
    else err (remote_command_failed command out.exit_code (lossy out.stderr))

-- `ChannelMsg` of the `russh` crate, as far as the loop tells its messages apart.
pub data ChannelMsg : Type 0 where
  data_msg : (bytes : List ℕ) → ChannelMsg
  extended_data : (bytes : List ℕ) (ext : ℕ) → ChannelMsg
  exit_status : (code : ℕ) → ChannelMsg
  eof close other_msg : ChannelMsg

-- The loop over `channel.wait()`, on the messages that it would give until it gives none.
unfoldable pub collect : List ChannelMsg → ExecOutput → ExecOutput
collect [] out = out
collect (data_msg bytes ∷ rest) out =
    collect rest
      (record { stdout = out.stdout ++ bytes; stderr = out.stderr; exit_code = out.exit_code })
collect (extended_data bytes ext ∷ rest) out = collect rest (
    if ext == 1
    then record { stdout = out.stdout; stderr = out.stderr ++ bytes; exit_code = out.exit_code }
    else out)
collect (exit_status code ∷ rest) out =
    collect rest (record { stdout = out.stdout; stderr = out.stderr; exit_code = code })
collect (eof ∷ rest) out = out
collect (close ∷ rest) out = out
collect (other_msg ∷ rest) out = collect rest out

abbrev pub nothing_yet : ExecOutput
nothing_yet = record { stdout = []; stderr = []; exit_code = 0 }

-- The calls of a channel.
pub record Channels (World : Type 0) : Type 1 where
  pub Channel : Type 0
  pub open_session : Io World Channel
  pub exec : Channel → (want_reply_command : Text) → Io World (Unit {0})
  pub messages : Channel → World → List ChannelMsg

unfoldable pub exec : {World : Type 0} → Channels World → Text → Io World ExecOutput
exec C command = do
  channel ← C.open_session
  C.exec channel command
  msgs ← gets (C.messages channel)
  pure (collect msgs nothing_yet)
