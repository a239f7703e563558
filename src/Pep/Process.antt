-- ===== src/Pep/Process.antt =====
-- cai-pep/src/main.rs: how a process is run, with a time limit and with limits on what is kept of its
-- output, and how its sandbox is removed. A polling loop has fuel for one round per interval.
pub mod Capped
pub mod Awaiting
pub mod Cleanup
use confidential_agent.Common.{
  take, ℕ, zero, suc, ◌+◌, ◌-◌, ◌*◌, ◌/◌, String, Bool, true, false, not, ◌&&◌, ◌||◌, Option, none,
  some, List, [], ◌∷◌, ◌++◌, if◌then◌else◌, leb, ltb, length,
}
use Prim.Native.String
use confidential_agent.Common.Text
use confidential_agent.Common.Text.{concat, contains_text, to_ascii_lowercase}
use mathlib.Core.Option.{get_or}
use confidential_agent.Pep.{Outcome, fail, success, panics, Command, World, Io, ExecOutput}
use confidential_agent.Pep
use confidential_agent.Pep.Host.{
  Host, Process, Poll, exited, broken, running, Read, got, interrupted, closed, lost, ◌>>=◌, ◌>>◌,
  lift, spawn, unique_id, wrap_err,
}
use confidential_agent.Gateway.{Bytes}

-- What a reader has kept, and whether it has dropped anything.
pub record Captured : Type 0 where
  pub buf : Bytes
  pub truncated : Bool

-- One read of at most 8192 bytes that were there.
unfoldable pub keep_chunk : ℕ → Bytes → Captured → Captured
keep_chunk max_bytes chunk c =
    let remaining = max_bytes - length c.buf in
    if ltb 0 remaining
    then record {
      buf = c.buf ++ take remaining chunk;
      truncated = c.truncated || ltb remaining (length chunk);
    }
    else record c { truncated = true }

-- The loop of `spawn_capped_reader`; a read of no bytes ends it.
unfoldable pub capped_reader : ℕ → List Read → Captured → Captured
capped_reader max_bytes [] c = c
capped_reader max_bytes (closed ∷ reads) c = c
capped_reader max_bytes (lost ∷ reads) c = c
capped_reader max_bytes (interrupted ∷ reads) c = capped_reader max_bytes reads c
capped_reader max_bytes (got [] ∷ reads) c = c
capped_reader max_bytes (got (b ∷ bytes) ∷ reads) c =
    capped_reader max_bytes reads (keep_chunk max_bytes (b ∷ bytes) c)

abbrev pub nothing_kept : Captured
nothing_kept = record { buf = []; truncated = false }

-- How a polling loop ends; `unfinished` is the end of the fuel.
pub data Awaited : Type 0 where
  finished : (code : Option ℕ) → Awaited
  poll_failed : (message : String) → Awaited
  overdue unfinished : Awaited

-- What one poll means, and otherwise what later ones do.
abbrev pub judge : ℕ → Poll → Awaited → Awaited
judge timeout_ms (exited code) later = finished code
judge timeout_ms (broken message) later = poll_failed message
judge timeout_ms (running elapsed_ms) later = if leb timeout_ms elapsed_ms then overdue else later

unfoldable pub await_exit : ℕ → ℕ → ℕ → (ℕ → Poll) → Awaited
await_exit zero timeout_ms round polls = unfinished
await_exit (suc fuel) timeout_ms round polls =
    judge timeout_ms (polls round) (await_exit fuel timeout_ms (suc round) polls)

abbrev pub rounds : ℕ → ℕ → ℕ
rounds timeout_ms interval_ms = suc (suc (timeout_ms / interval_ms))

abbrev pub killed_code : Bool → ℕ
killed_code timed_out = if timed_out then 124 else 137

abbrev succeeded : Option ℕ → Bool
succeeded none = false
succeeded (some zero) = true
succeeded (some (suc code)) = false

abbrev gone : String → Bool
gone diagnostic =
    contains_text "no such container" diagnostic
    || contains_text "no container with name" diagnostic

-- The results of the loop of `remove_sandbox_with_runtime`.
unfoldable pub removal : String → String → Awaited → Outcome String (Unit {0})
removal name diagnostic (finished code) =
    if succeeded code || gone diagnostic
    then success tt
    else fail (concat ("sandbox cleanup failed for " ∷ name ∷ ": " ∷ diagnostic ∷ []))
removal name diagnostic (poll_failed message) =
    fail (String.◌++◌ "sandbox cleanup wait failed: " message)
removal name diagnostic overdue =
    fail (concat ("sandbox cleanup timed out for " ∷ name ∷ "; removal is unconfirmed" ∷ []))
removal name diagnostic unfinished = fail "unfinished"

abbrev pub remove_command : String → String → Command
remove_command runtime name = record { program = runtime; args = "rm" ∷ "--force" ∷ name ∷ [] }

-- The text of a stream, with the mark of one that was cut.
abbrev mark_truncated : Bool → String → String
mark_truncated true s = String.◌++◌ s "\n[truncated by cai-pep]"
mark_truncated false s = s

abbrev mark_timed_out : Bool → String → String
mark_timed_out false s = s
mark_timed_out true s =
    String.◌++◌ (if not (Text.is_empty s) then String.◌++◌ s "\n" else s) "[timed out by cai-pep]"

-- How a process ended: its code, if it has one, and whether it was killed for its time.
pub record Ended : Type 0 where
  pub code : Option ℕ
  pub timed_out : Bool

module _ (host : Host) where
  unfoldable pub remove_sandbox_with_runtime : String → String → ℕ → Io String (Unit {0})
  remove_sandbox_with_runtime runtime name timeout_ms = do
    scratch ← unique_id host "cai-pep-cleanup"
    lift (Pep.map_err (String.◌++◌ "sandbox cleanup diagnostics: ") (host.scratch_file scratch))
    child ← wrap_spawn (spawn host (remove_command runtime name))
    lift (
        removal name (to_ascii_lowercase child.diagnostic)
          (await_exit (rounds timeout_ms 25) timeout_ms 0 child.polls))
    where
      wrap_spawn : Io String Process → Io String Process
      wrap_spawn = wrap_err (String.◌++◌ "sandbox cleanup failed: ")

  unfoldable pub remove_sandbox : String → Io String (Unit {0})
  remove_sandbox name = remove_sandbox_with_runtime "docker" name 3000

  -- `if let Some(name) = container_name { remove_sandbox(name)? }`
  unfoldable pub clean_up : Option String → Io String (Unit {0})
  clean_up none = lift (success tt)
  clean_up (some name) = remove_sandbox name

  -- The end of the polling loop, and the removal of the sandbox before the readers are joined.
  unfoldable pub settle : Process → Option String → Awaited → Io String Ended
  settle child container_name (finished code) = do
    clean_up container_name
    lift (success (record { code = code; timed_out = false }))
  settle child container_name (poll_failed message) = lift (fail message)
  settle child container_name overdue = do
    code ← lift child.killed
    clean_up container_name
    lift (success (record { code = code; timed_out = true }))
  settle child container_name unfinished = lift (fail "unfinished")

  unfoldable pub output_of : Ended → Captured → Captured → ExecOutput
  output_of ended stdout stderr = record {
    stdout = mark_truncated stdout.truncated (host.lossy stdout.buf);
    stderr =
        mark_timed_out ended.timed_out (mark_truncated stderr.truncated (host.lossy stderr.buf));
    exit_code = get_or ended.code (killed_code ended.timed_out);
  }

  unfoldable pub run_command_and_capture_with_cleanup :
      Command → ℕ → ℕ → ℕ → Option String → Io String ExecOutput
  run_command_and_capture_with_cleanup command stdout_max_bytes stderr_max_bytes timeout_secs
        container_name =
      do
        child ← wrap_err (String.◌++◌ "failed to spawn command: ") (spawn host command)
        ended ←
            settle child container_name
              (await_exit (rounds (timeout_secs * 1000) 100) (timeout_secs * 1000) 0 child.polls)
        lift (
            success (
              output_of ended (capped_reader stdout_max_bytes child.stdout_reads nothing_kept)
                (capped_reader stderr_max_bytes child.stderr_reads nothing_kept)))

  unfoldable pub run_command_and_capture : Command → ℕ → ℕ → ℕ → Io String ExecOutput
  run_command_and_capture command stdout_max_bytes stderr_max_bytes timeout_secs =
      run_command_and_capture_with_cleanup command stdout_max_bytes stderr_max_bytes timeout_secs
        none
