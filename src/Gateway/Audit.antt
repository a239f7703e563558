-- ===== src/Gateway/Audit.antt =====
-- gateway/src/lib.rs: the audit store, a file of lines that are chained by their hashes. The file is the
-- list of its lines; serde_json's reading and writing of a line are parameters, and the clock is an
-- argument. An append can fail before its write, inside the line, before the line's end, and at the
-- sync, and the file keeps what was written; a line that is cut is cut between two characters. The
-- file's path is left out of the store and of its status.
mod Lines
pub mod Chain
pub mod Reopening
pub mod Unsynced
mod Examples
unfoldable pub use Lines.*
use confidential_agent.Common.{
  ℕ, suc, ◌+◌, String, Bool, true, false, not, ◌||◌, Option, none, some, List, [], ◌∷◌, ◌++◌,
  is_empty, ◌==◌, nat_eq, string_eq, if◌then◌else◌, Field, Problem, Error, Result, ok, err, bad,
  ◌>>=◌, ◌>>◌, bail_if,
}
use confidential_agent.Common.Text
use confidential_agent.Common.Text.{trim}
use confidential_agent.Common.BTree
use confidential_agent.Common.BTree.{BTreeMap}
use confidential_agent.Common.Json
use confidential_agent.Common.Json.{Json, Members}
use confidential_agent.Gateway.Canonical.{Encoders, chain_hash}
use mathlib.Core.Option.{get_or}

-- Where the verification stands before a line.
pub record Cursor : Type 0 where
  pub line_no : ℕ
  pub prev_hash : String
  pub expected_seq : ℕ
  pub latest_hash : Option String
  pub errors : List AuditError

abbrev pub first_line : Cursor
first_line = record {
  line_no = 1;
  prev_hash = zero_hash;
  expected_seq = 0;
  latest_hash = none;
  errors = [];
}

-- `if test { errors.push(error) }`
abbrev pub push_if : Bool → AuditError → List AuditError → List AuditError
push_if true e errors = errors ++ (e ∷ [])
push_if false e errors = errors

abbrev pub counted : {F : Type 0} → String → Result AuditStore × F → Result AuditStore × F
counted method (ok store, file) =
    (ok (record store { methods_summary = count_method method store.methods_summary }), file)
counted method (err e, file) = (err e, file)

unfoldable pub report_of : Cursor → AuditVerifyReport
report_of at = record {
  valid = is_empty at.errors;
  total_records = at.expected_seq;
  latest_hash = at.latest_hash;
  errors = at.errors;
}

abbrev pub count_entry : Option String → BTreeMap ℕ → BTreeMap ℕ
count_entry none summary = summary
count_entry (some method) summary = count_method method summary

-- `line.record.get("method").and_then(Value::as_str)`
unfoldable pub method_of : Json → Option String
method_of entry = elim (Json.get entry "method") [ none ↦ none | some v ↦ Json.as_str v ]

abbrev pub empty_store : AuditStore
empty_store = record { next_seq = 0; latest_hash = zero_hash; methods_summary = [] }

-- `AuditStore::status`
unfoldable pub status : AuditStore → AuditStatus
status store = record {
  total_records = store.next_seq;
  latest_hash = some store.latest_hash;
  methods_summary = store.methods_summary;
}

-- A line that the second pass reads.
unfoldable pub replay_line : Option AuditLine → AuditStore → Result AuditStore
replay_line none store = err (bad (Field.name "audit line") Problem.syntax)
replay_line (some line) store = ok (record {
  next_seq = line.seq + 1;
  latest_hash = line.chain_hash;
  methods_summary = count_entry (method_of line.entry) store.methods_summary;
})

module _ (encoders : Encoders) where
  unfoldable pub next_line : AuditStore → Json → AuditLine
  next_line store entry = record {
    schema = audit_schema;
    seq = store.next_seq;
    prev_hash = store.latest_hash;
    chain_hash = chain_hash encoders store.latest_hash entry;
    entry = entry;
  }

  -- The checks of one line that was read.
  unfoldable pub check_line : AuditLine → Cursor → Cursor
  check_line line at = record {
    line_no = suc at.line_no;
    prev_hash = line.chain_hash;
    expected_seq = at.expected_seq + 1;
    latest_hash = some line.chain_hash;
    errors =
        push_if (not (line.chain_hash == chain_hash encoders line.prev_hash line.entry))
          (bad_hash at.line_no)
          (push_if (not (line.prev_hash == at.prev_hash)) (bad_prev at.line_no) (
            push_if (not (line.seq == at.expected_seq)) (bad_seq at.line_no)
              (push_if (not (line.schema == audit_schema)) (bad_schema at.line_no) at.errors)));
  }

  unfoldable pub verify_line : Option AuditLine → Cursor → Cursor
  verify_line none at = record at {
    line_no = suc at.line_no;
    errors = at.errors ++ (invalid_json at.line_no ∷ []);
  }
  verify_line (some line) at = check_line line at

module _ (encoders : Encoders) (format : LineFormat) where
  -- `AuditStore::append_record`, on the store and the file.
  unfoldable pub append_record :
      Write → Json → AuditStore → AuditFile format → Result AuditStore × AuditFile format
  append_record write entry store file = (
    when_written write (record store {
      latest_hash = chain_hash encoders store.latest_hash entry;
      next_seq = store.next_seq + 1;
    }),
    write_file format write (format.write_line (next_line encoders store entry)) file,
  )

  -- `AuditStore::append`
  unfoldable pub append :
      Write → AuditInput → AuditStore → AuditFile format → Result AuditStore × AuditFile format
  append write input store file =
      counted input.method (append_record write (call_entry input) store file)

  -- The loop of `AuditStore::verify_path`; a blank line is passed over.
  unfoldable pub verify_lines : List format.Line → Cursor → Cursor
  verify_lines [] at = at
  verify_lines (s ∷ file) at = verify_lines file (
      if Text.is_empty (trim (format.text s))
      then record at { line_no = suc at.line_no }
      else verify_line encoders (format.read_line s) at)

  -- `AuditStore::verify_path`: `none` is a path where no file is.
  unfoldable pub verify_path : Option (List format.Line) → AuditVerifyReport
  verify_path none = record {
    valid = false;
    total_records = 0;
    latest_hash = none;
    errors = missing_file ∷ [];
  }
  verify_path (some file) = report_of (verify_lines file first_line)

  -- The second pass of `open`, over a file that was verified.
  unfoldable pub replay : List format.Line → AuditStore → Result AuditStore
  replay [] store = ok store
  replay (s ∷ file) store =
      if Text.is_empty (trim (format.text s))
      then replay file store
      else (replay_line (format.read_line s) store >>= replay file)

  -- `AuditStore::open`, on the file that is there, if any, with the file after it.
  unfoldable pub open_store :
      Write → String → ℕ → Option (AuditFile format) → Result AuditStore × AuditFile format
  open_store write service_id now none =
      append_record write (genesis_entry service_id now) empty_store
        (record { lines = []; ended = true })
  open_store write service_id now (some file) = (
    bail_if (not (verify_path (some file.lines)).valid) (Field.name "audit chain") Problem.conflict
        >> replay file.lines empty_store,
    file,
  )
