-- ===== src/Gateway/Audit/Chain.antt =====
-- What it means that the audit file and the store agree, and a record that is added to both.
use confidential_agent.Common.{
  true, ◌+◌, ◌<◌, false, some, List, [], ◌∷◌, ◌++◌, ◌≡◌, refl, sym, ap, ◌∙◌, arith, nat_eq,
  string_eq, ok, ok_injective, bind-eq-ok, Bool-cases, inl, inr,
}
use confidential_agent.Common.Text
use confidential_agent.Common.Text.{trim}
use confidential_agent.Common.Json.{Json}
use confidential_agent.Gateway.Canonical.{Encoders, chain_hash}
use confidential_agent.Gateway.Audit.{
  audit_schema, AuditLine, AuditStore, AuditFile, LineFormat, Cursor, first_line, next_line,
  check_line, verify_line, verify_lines, replay_line, count_entry, method_of, replay, empty_store,
}

-- serde_json reads back the line that it wrote, and writes no blank one.
pub record IsFormat (format : LineFormat) : Type 0 where
  pub reads : (line : AuditLine) → format.read_line (format.write_line line) ≡ some line
  pub fills :
      (line : AuditLine) → Text.is_empty (trim (format.text (format.write_line line))) ≡ false

module _ (encoders : Encoders) (format : LineFormat) (sound : IsFormat format) where
  -- The store after the record's append, as `open` would count it.
  abbrev pub after_entry : Json → AuditStore → AuditStore
  after_entry entry store = record {
    next_seq = store.next_seq + 1;
    latest_hash = chain_hash encoders store.latest_hash entry;
    methods_summary = count_entry (method_of entry) store.methods_summary;
  }

  abbrev pub extended : Json → AuditStore → List format.Line → AuditFile format
  extended entry store lines = record {
    lines = lines ++ (format.write_line (next_line encoders store entry) ∷ []);
    ended = true;
  }

  -- The file's last line has ended, and it verifies, up to where the store stands, and gives the store
  -- when it is read again.
  pub record Agrees (file : AuditFile format) (store : AuditStore) : Type 0 where
    pub closed : file.ended ≡ true
    pub clean : (verify_lines encoders format file.lines first_line).errors ≡ []
    pub counted : (verify_lines encoders format file.lines first_line).expected_seq ≡ store.next_seq
    pub linked : (verify_lines encoders format file.lines first_line).prev_hash ≡ store.latest_hash
    pub reported :
        0 < store.next_seq
        → (verify_lines encoders format file.lines first_line).latest_hash ≡ some store.latest_hash
    pub reopened : replay encoders format file.lines empty_store ≡ ok store

  pub verify_lines-append :
      (file : List format.Line) (s : format.Line) (at : Cursor)
      → verify_lines encoders format (file ++ (s ∷ [])) at
        ≡ verify_lines encoders format (s ∷ []) (verify_lines encoders format file at)
  unfolding verify_lines
  verify_lines-append [] s at = refl
  verify_lines-append (t ∷ file) s at = verify_lines-append file s _

  replay-append :
      (file : List format.Line) (s : format.Line) (start store : AuditStore)
      → replay encoders format file start ≡ ok store
      → replay encoders format (file ++ (s ∷ [])) start ≡ replay encoders format (s ∷ []) store
  unfolding replay
  replay-append [] s start store h = rw (ok_injective h) refl
  replay-append (t ∷ file) s start store h =
      elim (Bool-cases (Text.is_empty (trim (format.text t)))) [
        | inl e ↦ rw e (replay-append file s start store (rw e at h))
        | inr e ↦
            let h' = rw e at h in
            let (next, read, rest) = bind-eq-ok (replay_line (format.read_line t) start) _ h' in
            rw e (rw read (replay-append file s next store rest))
      ]

  -- One line that was written, read by the two passes.
  pub verify-written :
      (line : AuditLine) (at : Cursor)
      → verify_lines encoders format (format.write_line line ∷ []) at ≡ check_line encoders line at
  unfolding verify_lines verify_line
  verify-written line at = rw (sound.fills line) (rw (sound.reads line) refl)

  replay-written :
      (line : AuditLine) (store : AuditStore)
      → replay encoders format (format.write_line line ∷ []) store
        ≡ ok (record {
          next_seq = line.seq + 1;
          latest_hash = line.chain_hash;
          methods_summary = count_entry (method_of line.entry) store.methods_summary;
        })
  unfolding replay replay_line
  replay-written line store = rw (sound.fills line) (rw (sound.reads line) refl)

  no_errors :
      (store : AuditStore) (entry : Json) (at : Cursor)
      → at.errors ≡ []
      → at.expected_seq ≡ store.next_seq
      → at.prev_hash ≡ store.latest_hash
      → (check_line encoders (next_line encoders store entry) at).errors ≡ []
  unfolding check_line next_line
  no_errors store entry at h k l = ground (
    arith,
    string_eq.beq_iff (chain_hash encoders store.latest_hash entry)
        (chain_hash encoders store.latest_hash entry),
    string_eq.beq_iff store.latest_hash at.prev_hash,
    string_eq.beq_iff audit_schema audit_schema,
    sym l,
  )

  pub extended-Agrees :
      (entry : Json) (store : AuditStore) (file : AuditFile format)
      → Agrees file store
      → Agrees (extended entry store file.lines) (after_entry entry store)
  unfolding check_line next_line
  extended-Agrees entry store file a = record {
    closed = refl;
    clean = rw whole (no_errors store entry at a.clean a.counted a.linked);
    counted = rw whole (ap (λ n. n + 1) a.counted);
    linked = rw whole refl;
    reported = λ positive. rw whole refl;
    reopened =
        replay-append file.lines (format.write_line line) empty_store store a.reopened
        ∙ replay-written line store
        ∙ refl;
  }
    where
      line : AuditLine
      line = next_line encoders store entry

      at : Cursor
      at = verify_lines encoders format file.lines first_line

      whole :
          verify_lines encoders format (extended entry store file.lines).lines first_line
          ≡ check_line encoders line at
      whole =
          verify_lines-append file.lines (format.write_line line) first_line
          ∙ verify-written line at
