-- ===== src/Gateway/Audit/Reopening.antt =====
-- An audit store whose file is opened again.
use confidential_agent.Common.{
  subst, ℕ, ◌<◌, String, true, none, some, List, [], ◌∷◌, ◌≡◌, All, refl, sym, ap, arith, string_eq,
  Result, ok, err, ok_injective,
}
use confidential_agent.Common.Json
use confidential_agent.Common.Json.{Json}
use confidential_agent.Gateway.Canonical.{Encoders}
use confidential_agent.Gateway.Audit.{
  AuditInput, AuditStore, AuditFile, LineFormat, Write, written, unopened, unended, unsynced, part,
  write_file, when_written, call_entry, genesis_entry, append_record, append, verify_lines,
  report_of, verify_path, method_of, replay, empty_store, open_store,
}
use confidential_agent.Gateway.Audit.Chain.{
  IsFormat, Agrees, after_entry, extended, extended-Agrees,
}

-- The append went through, or failed before anything was written.
abbrev pub IsWhole : Write → Type 0
IsWhole written = Unit
IsWhole unopened = Unit
IsWhole unended = ⊥
IsWhole unsynced = ⊥
IsWhole (part n) = ⊥

abbrev pub no_lines : (format : LineFormat) → AuditFile format
no_lines format = record { lines = []; ended = true }

module _ (encoders : Encoders) (format : LineFormat) where
  -- `append` changes the store only where it succeeds.
  abbrev pub kept : Result AuditStore → AuditStore → AuditStore
  kept (ok store) old = store
  kept (err e) old = old

  -- Appends, one after the other; each may fail.
  unfoldable pub run :
      List (Write × AuditInput) → AuditStore → AuditFile format → AuditStore × AuditFile format
  run [] store file = (store, file)
  run ((write, input) ∷ history) store file =
      let (result, file') = append encoders format write input store file in
      run history (kept result store) file'

module _ (encoders : Encoders) (format : LineFormat) (sound : IsFormat format) where
  empty-Agrees : Agrees encoders format sound (no_lines format) empty_store
  unfolding verify_lines replay
  empty-Agrees = record {
    closed = refl;
    clean = refl;
    counted = refl;
    linked = refl;
    reported = λ h. absurd (omega arith);
    reopened = refl;
  }

  method_of-call_entry : (input : AuditInput) → method_of (call_entry input) ≡ some input.method
  unfolding method_of call_entry Json.get Json.find_member Json.as_str
  method_of-call_entry input = refl

  -- What an append that goes through leaves.
  pub append-written :
      (input : AuditInput) (store : AuditStore) (file : AuditFile format)
      → file.ended ≡ true
      → append encoders format written input store file ≡ (
        ok (after_entry encoders format sound (call_entry input) store),
        extended encoders format sound (call_entry input) store file.lines,
      )
  unfolding append append_record write_file when_written
  append-written input store file h = rw h (rw (method_of-call_entry input) refl)

  pub run-written :
      (input : AuditInput) (history : List (Write × AuditInput)) (store : AuditStore)
      (file : AuditFile format)
      → file.ended ≡ true
      → run encoders format ((written, input) ∷ history) store file
        ≡ run encoders format history
            (after_entry encoders format sound (call_entry input) store)
            (extended encoders format sound (call_entry input) store file.lines)
  unfolding run
  run-written input history store file h =
      ap
        (λ (r : Result AuditStore × AuditFile format).
          run encoders format history (kept encoders format r.0 store) r.1)
        (append-written input store file h)

  run-unopened :
      (input : AuditInput) (history : List (Write × AuditInput)) (store : AuditStore)
      (file : AuditFile format)
      → run encoders format ((unopened, input) ∷ history) store file
        ≡ run encoders format history store file
  unfolding run append append_record write_file when_written
  run-unopened input history store file = refl

  pub run-Agrees :
      (history : List (Write × AuditInput)) (store : AuditStore) (file : AuditFile format)
      → All (λ (w : Write × AuditInput). IsWhole w.0) history
      → 0 < store.next_seq
      → Agrees encoders format sound file store
      → (0 < (run encoders format history store file).0.next_seq)
        × Agrees encoders format sound
            (run encoders format history store file).1
            (run encoders format history store file).0
  unfolding run
  run-Agrees [] store file w h a = (h, a)
  run-Agrees ((unended, input) ∷ history) store file (w, ws) h a = absurd w
  run-Agrees ((unsynced, input) ∷ history) store file (w, ws) h a = absurd w
  run-Agrees ((part n, input) ∷ history) store file (w, ws) h a = absurd w
  run-Agrees ((unopened, input) ∷ history) store file (w, ws) h a =
      rw (run-unopened input history store file) (run-Agrees history store file ws h a)
  run-Agrees ((written, input) ∷ history) store file (w, ws) h a =
      rw (run-written input history store file a.closed) (
        run-Agrees history (after_entry encoders format sound (call_entry input) store)
          (extended encoders format sound (call_entry input) store file.lines) ws (omega arith)
          (extended-Agrees encoders format sound (call_entry input) store file a))

  pub genesis-Agrees :
      (service_id : String) (now : ℕ)
      → Agrees encoders format sound
          (extended encoders format sound (genesis_entry service_id now) empty_store [])
          (after_entry encoders format sound (genesis_entry service_id now) empty_store)
  genesis-Agrees service_id now =
      extended-Agrees encoders format sound (genesis_entry service_id now) empty_store
        (no_lines format) empty-Agrees

  -- The store and the file agree: the file verifies, and `open` gives the store.
  pub open_store-Agrees :
      (write : Write) (service_id : String) (now : ℕ) (store : AuditStore) (file : AuditFile format)
      → 0 < store.next_seq
      → Agrees encoders format sound file store
      → (open_store encoders format write service_id now (some file) ≡ (ok store, file))
        × (verify_path encoders format (some file.lines) ≡ record {
          valid = true;
          total_records = store.next_seq;
          latest_hash = some store.latest_hash;
          errors = [];
        })
  unfolding open_store verify_path report_of
  open_store-Agrees write service_id now store file positive a =
      (rw a.clean (rw a.reopened refl), rw a.clean (rw a.counted (rw (a.reported positive) refl)))

  -- An audit store that was opened on no file, and to which any records were appended, each with a write
  -- that went through or failed before its first byte, is the same store when its file is opened again,
  -- and the file verifies with the store's count and hash.
  pub open_store-run :
      (service_id service_id' : String) (now now' : ℕ) (write : Write)
      (history : List (Write × AuditInput)) (store : AuditStore) (file : AuditFile format)
      → open_store encoders format written service_id now none ≡ (ok store, file)
      → All (λ (w : Write × AuditInput). IsWhole w.0) history
      → let end = run encoders format history store file in
        (open_store encoders format write service_id' now' (some end.1) ≡ (ok end.0, end.1))
        × (verify_path encoders format (some end.1.lines) ≡ record {
          valid = true;
          total_records = end.0.next_seq;
          latest_hash = some end.0.latest_hash;
          errors = [];
        })
  unfolding open_store append_record write_file when_written method_of Json.get genesis_entry
      Json.find_member Json.as_str
  open_store-run service_id service_id' now now' write history store file opened whole =
      let end = run encoders format history store file in
      let first : 0 < store.next_seq =
        rw (sym (ok_injective (ap (λ r. r.0) opened))) (omega arith) in
      let agrees =
        subst (λ (f : AuditFile format). Agrees encoders format sound f store)
          (ap (λ r. r.1) opened)
          (subst
            (λ (s : AuditStore).
              Agrees encoders format sound
                (extended encoders format sound (genesis_entry service_id now) empty_store []) s)
            (ok_injective (ap (λ r. r.0) opened)) (genesis-Agrees service_id now)) in
      let (positive, at_end) = run-Agrees history store file whole first agrees in
      open_store-Agrees write service_id' now' end.0 end.1 positive at_end
