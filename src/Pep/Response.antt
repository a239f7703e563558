-- ===== src/Pep/Response.antt =====
-- cai-pep/src/main.rs: the responses to an intent.
use confidential_agent.Common.{String, Option, none, some}
use confidential_agent.Common.Json.{Json}
use confidential_agent.Pep.{
  Outcome, fail, success, panics, PepError, policy_deny, bad_request, execution,
  IntentSuccessResult, IntentResponse,
}

abbrev pub ok : String → IntentSuccessResult → IntentResponse
ok id result = record { id = id; result = some result; error = none }

abbrev pub deny : String → String → String → Json → String → IntentResponse
deny id rule_id message detail audit_id = record {
  id = id;
  result = none;
  error = some (record {
    code = "POLICY_DENY";
    message = message;
    rule_id = some rule_id;
    detail = some detail;
    audit_id = some audit_id;
  });
}

abbrev pub refused : String → String → IntentResponse
refused id message = record {
  id = id;
  result = none;
  error = some (record {
    code = "BAD_REQUEST";
    message = message;
    rule_id = none;
    detail = none;
    audit_id = none;
  });
}

abbrev pub exec_failed : String → String → Json → String → IntentResponse
exec_failed id message detail audit_id = record {
  id = id;
  result = none;
  error = some (record {
    code = "EXECUTION_FAILED";
    message = message;
    rule_id = none;
    detail = some detail;
    audit_id = some audit_id;
  });
}

-- `match handle_intent(…)` of `handle_stream`: the response to each result; none after a panic.
unfoldable pub response_of : String → Outcome PepError IntentSuccessResult → Option IntentResponse
response_of id (success result) = some (ok id result)
response_of id (fail (policy_deny rule_id message detail audit_id)) =
    some (deny id rule_id message detail audit_id)
response_of id (fail (bad_request message)) = some (refused id message)
response_of id (fail (execution message audit_id detail)) =
    some (exec_failed id message detail audit_id)
response_of id panics = none
