-- ===== src/Gateway/Audit/Unsynced.antt =====
-- A record that was written to the audit file, while its sync failed.
use confidential_agent.Common.{
  ℕ, ◌+◌, String, Bool, true, false, some, List, [], ◌∷◌, ◌++◌, is_empty, ◌≡◌, refl, ◌∙◌, arith,
  nat_eq, string_eq, ◌==◌, not, err, bad, Field, Problem,
}
use confidential_agent.Gateway.Canonical.{Encoders, chain_hash}
use confidential_agent.Gateway.Audit.{
  AuditInput, AuditLine, AuditStore, AuditFile, AuditError, bad_schema, bad_seq, bad_prev, bad_hash,
  audit_schema, LineFormat, Cursor, first_line, push_if, Write, written, unsynced, write_file,
  when_written, call_entry, next_line, check_line, append_record, append, verify_lines, report_of,
  verify_path, open_store,
}
use confidential_agent.Gateway.Audit.Chain.{
  IsFormat, Agrees, extended, extended-Agrees, verify_lines-append, verify-written,
}
use confidential_agent.Gateway.Audit.Reopening.{run}

push-filled : (errors : List AuditError) (e : AuditError) → is_empty (errors ++ (e ∷ [])) ≡ false
push-filled [] e = refl
push-filled (f ∷ errors) e = refl

push_if-filled :
    (b : Bool) (e : AuditError) (errors : List AuditError)
    → is_empty errors ≡ false
    → is_empty (push_if b e errors) ≡ false
push_if-filled true e errors h = push-filled errors e
push_if-filled false e errors h = h

push_if-true :
    (b : Bool) (e : AuditError) (errors : List AuditError)
    → b ≡ true
    → is_empty (push_if b e errors) ≡ false
push_if-true true e errors h = push-filled errors e
push_if-true false e errors h = cc

module _ (encoders : Encoders) (format : LineFormat) (sound : IsFormat format) where
  -- A line with another number than the one that is due is an error.
  check_line-seq :
      (line : AuditLine) (at : Cursor)
      → not (line.seq == at.expected_seq) ≡ true
      → is_empty (check_line encoders line at).errors ≡ false
  unfolding check_line
  check_line-seq line at h =
      push_if-filled (not (line.chain_hash == chain_hash encoders line.prev_hash line.entry))
        (bad_hash at.line_no)
        (push_if (not (line.prev_hash == at.prev_hash)) (bad_prev at.line_no) numbered)
        (push_if-filled (not (line.prev_hash == at.prev_hash)) (bad_prev at.line_no) numbered
          (push_if-true (not (line.seq == at.expected_seq)) (bad_seq at.line_no) known h))
    where
      known : List AuditError
      known = push_if (not (line.schema == audit_schema)) (bad_schema at.line_no) at.errors

      numbered : List AuditError
      numbered = push_if (not (line.seq == at.expected_seq)) (bad_seq at.line_no) known

  -- The file after the two appends.
  abbrev pub twice : AuditInput → AuditInput → AuditStore → AuditFile format → AuditFile format
  twice first second store file =
      extended encoders format sound (call_entry second) store
        (extended encoders format sound (call_entry first) store file.lines).lines

  run-twice :
      (first second : AuditInput) (store : AuditStore) (file : AuditFile format)
      → file.ended ≡ true
      → (run encoders format ((unsynced, first) ∷ (written, second) ∷ []) store file).1
        ≡ twice first second store file
  unfolding run append append_record write_file when_written
  run-twice first second store file h = rw h refl

  -- Where an append's sync fails after its line was written, and the next append goes through, the
  -- file no longer verifies, and opening it is refused.
  pub open_store-unsynced :
      (write : Write) (service_id : String) (now : ℕ) (first second : AuditInput)
      (store : AuditStore) (file : AuditFile format)
      → Agrees encoders format sound file store
      → let end = run encoders format ((unsynced, first) ∷ (written, second) ∷ []) store file in
        ((verify_path encoders format (some end.1.lines)).valid ≡ false)
        × (open_store encoders format write service_id now (some end.1)
            ≡ (err (bad (Field.name "audit chain") Problem.conflict), end.1))
  unfolding open_store
  open_store-unsynced write service_id now first second store file a =
      rw (run-twice first second store file a.closed) (invalid, rw invalid refl)
    where
      one : AuditFile format
      one = extended encoders format sound (call_entry first) store file.lines

      line : AuditLine
      line = next_line encoders store (call_entry second)

      at : Cursor
      at = verify_lines encoders format one.lines first_line

      due : at.expected_seq ≡ store.next_seq + 1
      due = (extended-Agrees encoders format sound (call_entry first) store file a).counted

      refused : is_empty (check_line encoders line at).errors ≡ false
      refused =
          check_line-seq line at
            (unfold next_line in ground (arith, due, nat_eq.beq_iff line.seq at.expected_seq))

      whole :
          verify_lines encoders format (twice first second store file).lines first_line
          ≡ check_line encoders line at
      whole =
          verify_lines-append encoders format sound one.lines (format.write_line line) first_line
          ∙ verify-written encoders format sound line at

      invalid :
          (verify_path encoders format (some (twice first second store file).lines)).valid ≡ false
      invalid = unfold verify_path report_of in (rw whole refused)
