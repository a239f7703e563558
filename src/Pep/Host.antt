-- ===== src/Pep/Host.antt =====
-- cai-pep/src/main.rs: what the program asks of its machine, as parameters, and the steps on the world
-- that read it. A process is what the program sees of it: how it is polled, and what its pipes give.
pub mod Added
use Prim.Native.String
use confidential_agent.Common.{
  ℕ, suc, ◌+◌, ◌%◌, ◌^◌, String, Bool, true, false, not, Option, none, some, List, [], ◌∷◌, ◌++◌,
  if◌then◌else◌,
}
use confidential_agent.Common.Text.{concat, show}
use confidential_agent.Common.Json.{Json}
use confidential_agent.Spec.Types.{PathBuf}
use confidential_agent.Pep.{Outcome, fail, success, panics, Command, World, Io}
use confidential_agent.Pep
use confidential_agent.Gateway.{Bytes}

-- What `try_wait` says, with the time since the start where it says that the process runs.
pub data Poll : Type 0 where
  exited : (code : Option ℕ) → Poll
  broken : (message : String) → Poll
  running : (elapsed_ms : ℕ) → Poll

-- What one `read` of a pipe gives; `closed` ends the stream.
pub data Read : Type 0 where
  got : Bytes → Read
  interrupted closed lost : Read

pub record Process : Type 0 where
  pub starts : Outcome String (Unit {0})
  pub polls : ℕ → Poll
  pub killed : Outcome String (Option ℕ)
  pub stdout_reads : List Read
  pub stderr_reads : List Read
  pub diagnostic : String

pub record Host : Type 0 where
  pub exists : String → Bool
  pub canonicalize : String → Outcome String PathBuf
  pub is_dir : PathBuf → Bool
  pub owner : PathBuf → Outcome String (ℕ × ℕ)
  pub read_text : String → Option String
  pub read_bytes : String → Outcome String Bytes
  pub create_dir_all : String → Outcome String (Unit {0})
  pub write_file : String → Bytes → Outcome String (Unit {0})
  pub parse_json : String → Option Json
  pub shell_split : String → Option (List String)
  pub debug : String → String
  pub lossy : Bytes → String
  pub work_dir : Option String
  pub scratch_file : String → Outcome String (Unit {0})
  pub process_id : ℕ
  pub now_ms : World → ℕ
  pub process : World → Process

-- What a step makes of an outcome that the world does not change.
unfoldable pub lift : {E A : Type 0} → Outcome E A → Io E A
lift m = record { run = λ w. (m, w) }

abbrev pub continue : {E A B : Type 0} → (A → Io E B) → Outcome E A × World → Outcome E B × World
continue next (fail e, w) = (fail e, w)
continue next (success a, w) = (next a).run w
continue next (panics, w) = (panics, w)

infixl 5 ◌>>=◌ ◌>>◌
unfoldable pub ◌>>=◌ : {E A B : Type 0} → Io E A → (A → Io E B) → Io E B
m >>= next = record { run = λ w. continue next (m.run w) }

unfoldable pub ◌>>◌ : {E B : Type 0} → Io E (Unit {0}) → Io E B → Io E B
m >> next = record { run = λ w. continue (λ done. next) (m.run w) }

-- `step.map_err(f)?`
unfoldable pub wrap_err : {E F A : Type 0} → (E → F) → Io E A → Io F A
wrap_err f m = record { run = λ w. let (r, w') = m.run w in (Pep.map_err f r, w') }

-- `Ok`, `Err` and a result that is looked at rather than passed on.
unfoldable pub attempt : {E A : Type 0} → Io E A → Io E (Outcome E A)
attempt m = record { run = λ w. let (r, w') = m.run w in (success r, w') }

-- A process that starts, or the world as it was.
abbrev pub started :
    Process → World → World → Outcome String (Unit {0}) → Outcome String Process × World
started p w w' (success done) = (success p, w')
started p w w' (fail e) = (fail e, w)
started p w w' panics = (panics, w)

module _ (host : Host) where
  unfoldable pub now : {E : Type 0} → Io E ℕ
  now = record { run = λ w. (success (host.now_ms w), w) }

  -- `unique_id`: `fetch_add` wraps around.
  unfoldable pub unique_id : {E : Type 0} → String → Io E String
  unique_id prefix = record {
    run = λ w. (
      success (
          concat (
            prefix
            ∷ "-"
            ∷ show (host.now_ms w)
            ∷ "-"
            ∷ show host.process_id
            ∷ "-"
            ∷ show w.next_id
            ∷ [])),
      record w { next_id = (w.next_id + 1) % 2 ^ 64 },
    );
  }

  -- `command.spawn()`: the world has the process from now on, if it starts.
  unfoldable pub spawn : Command → Io String Process
  spawn command = record {
    run = λ w.
        let w' = record w { spawned = w.spawned ++ (command ∷ []) } in
        let p = host.process w' in started p w w' p.starts;
  }
