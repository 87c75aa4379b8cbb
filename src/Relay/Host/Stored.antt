-- ===== src/Relay/Host/Stored.antt =====
-- A host that shows what was written to it, and the state that is loaded from it.
use rustmote.Prelude.{◌≡◌, ap, ℕ, true, false, some, List, ◌++◌}
use rustmote.Text.{Text, str, bytes}
use rustmote.Error.{ok}
use rustmote.Effect.{◌>>=◌}
use rustmote.Effect.Hoare.{Anything, Hoare}
use rustmote.Session.Exec.{ExecOutput, ok_for}
use rustmote.Relay.Commands.{validate_remote_path, write_file, test_file_exists, cat_file}
use rustmote.Relay.Paths.{state_path}
use rustmote.Relay.State.{RelayState}
use rustmote.Relay.Remote.{Remote}
use rustmote.Relay.Steps.{exec_ok, path_exists, read_file, load_state}
use rustmote.Relay.Host.{IsHost, looks}
use rustmote.Relay.Lifecycle.Check.Readonly.{test_file}

-- A write that succeeds has written, a file that is there is found and shown, and a state is read back
-- from its TOML text.
pub record IsStore (R : Remote) (host : IsHost R) : Type 0 where
  pub writes :
      (dst : Text) (content : List ℕ) (command : Text)
      → write_file R.encode dst content ≡ ok command
      → Hoare
          (λ w. Unit {0})
          (R.exec command)
          (λ out w. out.exit_code ≡ 0 → host.file w dst ≡ some content)
          Anything
  pub finds :
      (p command : Text) (content : List ℕ) (w : Remote.World R)
      → test_file_exists p ≡ ok command
      → host.file w p ≡ some content
      → (out : ExecOutput) × ((R.exec command w).0 ≡ ok out) × (out.exit_code ≡ 0)
  pub shows :
      (p command : Text) (content : List ℕ) (w : Remote.World R)
      → cat_file p ≡ ok command
      → host.file w p ≡ some content
      → (out : ExecOutput) × ((R.exec command w).0 ≡ ok out)
        × (out.exit_code ≡ 0)
        × (out.stdout ≡ content)
  pub reads_back :
      (s : RelayState) (raw hint : Text)
      → R.to_toml s ≡ ok raw
      → R.from_toml (R.lossy (bytes raw)) hint ≡ ok s

module _ (R : Remote) (host : IsHost R) (store : IsStore R host) where
  abbrev World : Type 0
  World = Remote.World R

  found :
      (p q : Text) (content : List ℕ) (w : World)
      → validate_remote_path p ≡ ok q
      → host.file w p ≡ some content
      → (v : World) × (path_exists R p false w ≡ (ok true, v)) × (host.file v p ≡ some content)
  unfolding path_exists test_file_exists ◌>>=◌
  found p q content w valid there =
      let command = str "test -f " ++ q in
      let made : test_file_exists p ≡ ok command = rw valid in
      let (out, ran, is_zero) = store.finds p command content w made there in
      let v = (R.exec command w).1 in
      let answered : R.exec command w ≡ (ok out, v) = ap (λ r. (r, v)) ran in
      (
        v,
        rw (made, answered, is_zero),
        (host.calm_keeps command p (some content) (looks (test_file p made))).at w there,
      )

  shown :
      (p q : Text) (content : List ℕ) (w : World)
      → validate_remote_path p ≡ ok q
      → host.file w p ≡ some content
      → (out : ExecOutput) × (v : World) × (read_file R p w ≡ (ok out, v)) × (out.stdout ≡ content)
  unfolding read_file exec_ok ok_for cat_file ◌>>=◌
  shown p q content w valid there =
      let command = str "cat " ++ q in
      let made : cat_file p ≡ ok command = rw valid in
      let (out, ran, is_zero, same) = store.shows p command content w made there in
      let v = (R.exec command w).1 in
      let answered : R.exec command w ≡ (ok out, v) = ap (λ r. (r, v)) ran in
      (out, v, rw (made, answered, is_zero), same)

  -- A state whose text is in the state file is loaded.
  pub load_state-loads :
      (install_path q raw : Text) (s : RelayState) (w : World)
      → validate_remote_path (state_path install_path) ≡ ok q
      → R.to_toml s ≡ ok raw
      → host.file w (state_path install_path) ≡ some (bytes raw)
      → (v : World) × (load_state R install_path w ≡ (ok s, v))
  unfolding load_state ◌>>=◌
  load_state-loads install_path q raw s w valid text there =
      let p = state_path install_path in
      let (v, installed, still) = found p q (bytes raw) w valid there in
      let (out, v', read, same) = shown p q (bytes raw) v valid still in
      let back = store.reads_back s raw p text in (v', rw (installed, read, same, back))
