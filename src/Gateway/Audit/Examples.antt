-- ===== src/Gateway/Audit/Examples.antt =====
-- An audit file with two calls, of which the second's write fails at once.
use confidential_agent.Common.Json
use confidential_agent.Common.{Option, true, String, none, some, List, [], ◌∷◌, ◌≡◌, refl, ok}
use confidential_agent.Common.Text
use confidential_agent.Common.Text.{trim, byte_len, show}
use confidential_agent.Gateway.Canonical.{Encoders}
use confidential_agent.Gateway.Audit.{
  zero_hash, method_of, AuditInput, AuditLine, AuditStore, LineFormat, Write, written, unopened,
  write_file, when_written, AuditFile, genesis_entry, append_record, next_line, verify_path,
  open_store,
}
use confidential_agent.Gateway.Audit.Chain.{IsFormat, after_entry}
use confidential_agent.Gateway.Audit.Reopening.{run, open_store-run}

-- The digest is the length of its text.
abbrev encoders : Encoders
encoders = record { sha256 = λ s. byte_len s ∷ []; quote = λ s. s; number = show }

abbrev lines : LineFormat
lines = record {
  Line = Option AuditLine;
  text = λ line. "{}";
  read_line = λ line. line;
  write_line = λ line. some line;
  join = λ line next. none;
  cut = λ n line. none;
}

lines-IsFormat : IsFormat lines
unfolding Text.is_empty trim
lines-IsFormat = record { reads = λ line. refl; fills = λ line. refl }

abbrev call : String → AuditInput
call method = record {
  timestamp = 7;
  caller_service_id = "web";
  caller_jti = "id-1";
  method = method;
  tool_name = none;
  params_hash = none;
  result_hash = none;
  http_status = 200;
}

abbrev history : List (Write × AuditInput)
history = (written, call "tools/list") ∷ (unopened, call "tools/call") ∷ []

abbrev first_store : AuditStore
first_store = after_entry encoders lines lines-IsFormat (genesis_entry "api" 5) (record {
  next_seq = 0;
  latest_hash = "0000000000000000000000000000000000000000000000000000000000000000";
  methods_summary = [];
})

abbrev first_file : AuditFile lines
first_file = record {
  lines =
      some (
        next_line encoders
          (record {
            next_seq = 0;
            latest_hash = "0000000000000000000000000000000000000000000000000000000000000000";
            methods_summary = [];
          })
          (genesis_entry "api" 5))
      ∷ [];
  ended = true;
}

open_store-run_example :
    let end = run encoders lines history first_store first_file in
    (open_store encoders lines written "api" 9 (some end.1) ≡ (ok end.0, end.1))
    × (verify_path encoders lines (some end.1.lines) ≡ record {
      valid = true;
      total_records = end.0.next_seq;
      latest_hash = some end.0.latest_hash;
      errors = [];
    })
unfolding open_store append_record write_file when_written genesis_entry zero_hash method_of
    Json.get Json.find_member Json.as_str
open_store-run_example =
    open_store-run encoders lines lines-IsFormat "api" "api" 5 9 written history first_store
      first_file refl (tt, (tt, tt))
