-- ===== src/Session/Exec/Collected.antt =====
-- crates/rustmote-core/src/session/mod.rs, `exec`: what the loop collects.
use rustmote.Prelude.{
  ℕ, ◌≡◌, sym, ◌∙◌, List, [], ◌∷◌, ◌++◌, ◌==◌, append_assoc, append-nil, Bool-cases, inl, inr,
  if◌then◌else◌,
}
use rustmote.Session.Exec.{
  ExecOutput, ChannelMsg, data_msg, extended_data, exit_status, eof, close, other_msg, collect,
}

-- The messages before the first that ends the stream or closes the channel.
abbrev pub before_end : List ChannelMsg → List ChannelMsg
before_end [] = []
before_end (eof ∷ rest) = []
before_end (close ∷ rest) = []
before_end (m ∷ rest) = m ∷ before_end rest

-- What one message adds to each stream, and the exit code after it.
abbrev pub on_stdout : ChannelMsg → List ℕ
on_stdout (data_msg bytes) = bytes
on_stdout m = []

abbrev pub on_stderr : ChannelMsg → List ℕ
on_stderr (extended_data bytes ext) = if ext == 1 then bytes else []
on_stderr m = []

abbrev pub code_after : ℕ → ChannelMsg → ℕ
code_after before (exit_status code) = code
code_after before m = before

abbrev pub gather : (ChannelMsg → List ℕ) → List ChannelMsg → List ℕ
gather f [] = []
gather f (m ∷ rest) = f m ++ gather f rest

abbrev pub last_code : ℕ → List ChannelMsg → ℕ
last_code before [] = before
last_code before (m ∷ rest) = last_code (code_after before m) rest

-- The output after the messages `msgs`, from the output `out`.
abbrev pub after : ExecOutput → List ChannelMsg → ExecOutput
after out msgs = record {
  stdout = out.stdout ++ gather on_stdout msgs;
  stderr = out.stderr ++ gather on_stderr msgs;
  exit_code = last_code out.exit_code msgs;
}

-- No message.
after-none : (out : ExecOutput) → after out [] ≡ out
after-none out = cc (append-nil out.stdout, append-nil out.stderr)

-- What the loop returns is what the messages before the first end of the stream say: no message after it counts, an
-- exit status included.
pub collect-before_end :
    (msgs : List ChannelMsg) (out : ExecOutput) → collect msgs out ≡ after out (before_end msgs)
unfolding collect
collect-before_end [] out = sym (after-none out)
collect-before_end (data_msg bytes ∷ rest) out =
    collect-before_end rest _
    ∙ cc (append_assoc out.stdout bytes (gather on_stdout (before_end rest)))
collect-before_end (extended_data bytes ext ∷ rest) out = elim (Bool-cases (ext == 1)) [
  | inl one ↦ rw one (
      collect-before_end rest _
      ∙ cc (append_assoc out.stderr bytes (gather on_stderr (before_end rest))))
  | inr other ↦ rw other (collect-before_end rest out)
]
collect-before_end (exit_status code ∷ rest) out = collect-before_end rest _
collect-before_end (eof ∷ rest) out = sym (after-none out)
collect-before_end (close ∷ rest) out = sym (after-none out)
collect-before_end (other_msg ∷ rest) out = collect-before_end rest out
