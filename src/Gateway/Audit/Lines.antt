-- ===== src/Gateway/Audit/Lines.antt =====
-- gateway/src/lib.rs: the lines of the audit file, their records, and what a write leaves in the file.
use confidential_agent.Common.{
  ℕ, suc, ◌+◌, String, Bool, true, false, Option, none, some, List, [], ◌∷◌, ◌++◌, nat_eq,
  string_eq, if◌then◌else◌, Field, Problem, Result, ok, err, bad,
}
use confidential_agent.Common.BTree
use confidential_agent.Common.BTree.{BTreeMap}
use confidential_agent.Common.Json.{Json, Members}
use mathlib.Core.Option.{get_or}

unfoldable pub audit_schema : String
audit_schema = "confidential-agent/gateway-audit/v1"

pub record AuditInput : Type 0 where
  pub timestamp : ℕ
  pub caller_service_id : String
  pub caller_jti : String
  pub method : String
  pub tool_name : Option String
  pub params_hash : Option String
  pub result_hash : Option String
  pub http_status : ℕ

-- The field `record` of the source is `entry` here.
pub record AuditLine : Type 0 where
  pub schema : String
  pub seq : ℕ
  pub prev_hash : String
  pub chain_hash : String
  pub entry : Json

-- What is wrong with a line; the number is that of the line.
pub data AuditError : Type 0 where
  missing_file : AuditError
  invalid_json bad_schema bad_seq bad_prev bad_hash : ℕ → AuditError

pub record AuditVerifyReport : Type 0 where
  pub valid : Bool
  pub total_records : ℕ
  pub latest_hash : Option String
  pub errors : List AuditError

pub record AuditStatus : Type 0 where
  pub total_records : ℕ
  pub latest_hash : Option String
  pub methods_summary : BTreeMap ℕ

pub record AuditStore : Type 0 where
  pub next_seq : ℕ
  pub latest_hash : String
  pub methods_summary : BTreeMap ℕ

-- `"0".repeat(64)`
unfoldable pub zero_hash : String
zero_hash = "0000000000000000000000000000000000000000000000000000000000000000"

abbrev pub optional : Option String → Json
optional none = Json.null
optional (some s) = Json.str s

-- The record of an MCP call; serde_json keeps the members in the order of their keys.
unfoldable pub call_entry : AuditInput → Json
call_entry input = Json.obj (
    Members.member "caller_jti" (Json.str input.caller_jti) (
      Members.member "caller_service_id" (Json.str input.caller_service_id) (
        Members.member "http_status" (Json.num input.http_status) (
          Members.member "method" (Json.str input.method) (
            Members.member "params_hash" (optional input.params_hash) (
              Members.member "result_hash" (optional input.result_hash) (
                Members.member "timestamp" (Json.num input.timestamp) (
                  Members.member "tool_name" (optional input.tool_name)
                    (Members.member "type" (Json.str "mcp_call") Members.end)))))))))

unfoldable pub genesis_entry : String → ℕ → Json
genesis_entry service_id now = Json.obj (
    Members.member "service_id" (Json.str service_id) (
      Members.member "timestamp" (Json.num now)
        (Members.member "type" (Json.str "genesis") Members.end)))

-- `*summary.entry(method).or_insert(0) += 1`
unfoldable pub count_method : String → BTreeMap ℕ → BTreeMap ℕ
count_method method summary = BTree.insert method (get_or (BTree.get method summary) 0 + 1) summary

-- The lines of a file with their texts, and serde_json on them: `join s t` is the line of the text of `s`
-- with that of `t` after it, and `cut n s` the first `n` characters of `s`. A line that is written has
-- no line end inside.
pub record LineFormat : Type 1 where
  pub Line : Type 0
  pub text : Line → String
  pub read_line : Line → Option AuditLine
  pub write_line : AuditLine → Line
  pub join : Line → Line → Line
  pub cut : ℕ → Line → Line

-- The audit file, and whether its last line has a line end.
pub record AuditFile (format : LineFormat) : Type 0 where
  pub lines : List format.Line
  pub ended : Bool

-- The next line's text goes to a line of its own only if the last one has ended.
unfoldable pub join_last : (format : LineFormat) → format.Line → List format.Line → List format.Line
join_last format line [] = line ∷ []
join_last format line (s ∷ []) = format.join s line ∷ []
join_last format line (s ∷ t ∷ file) = s ∷ join_last format line (t ∷ file)

abbrev pub add_line :
    (format : LineFormat) → Bool → format.Line → AuditFile format → AuditFile format
add_line format ended line file = record {
  lines = if file.ended then file.lines ++ (line ∷ []) else join_last format line file.lines;
  ended = ended;
}

-- How far an append gets: all the way; not to the first byte of its line; `n + 1` characters into the
-- line; to the end of the line without the line end; to the sync, which fails.
pub data Write : Type 0 where
  written unopened unended unsynced : Write
  part : ℕ → Write

-- What the two writes leave in the file.
unfoldable pub write_file :
    (format : LineFormat) → Write → format.Line → AuditFile format → AuditFile format
write_file format written line file = add_line format true line file
write_file format unsynced line file = add_line format true line file
write_file format unended line file = add_line format false line file
write_file format (part n) line file = add_line format false (format.cut (suc n) line) file
write_file format unopened line file = file

-- `?` on the three steps of the write: the result where all have gone through.
unfoldable pub when_written : {A : Type 0} → Write → A → Result A
when_written written a = ok a
when_written unsynced a = err (bad (Field.name "audit file") Problem.required)
when_written unended a = err (bad (Field.name "audit file") Problem.required)
when_written (part n) a = err (bad (Field.name "audit file") Problem.required)
when_written unopened a = err (bad (Field.name "audit file") Problem.required)
