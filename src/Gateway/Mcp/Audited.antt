-- ===== src/Gateway/Mcp/Audited.antt =====
-- The answers of a connection and the records of its audit file.
use confidential_agent.Common.{
  suc, ◌+◌, ◌<◌, ◌≤◌, String, Bool, true, false, Option, none, some, List, [], ◌∷◌, ◌++◌, length,
  Result, ok, err, ◌≡◌, ◌⊎◌, inl, inr, refl, sym, ap, arith, if◌then◌else◌,
}
use confidential_agent.Gateway.{VerifiedCaller}
use confidential_agent.Gateway.Canonical.{Encoders}
use confidential_agent.Gateway.Audit.{
  AuditInput, AuditStore, AuditFile, LineFormat, Write, written, unopened, unended, unsynced, part,
  write_file, when_written, call_entry, next_line, append, append_record, status, verify_path,
}
use confidential_agent.Gateway.Audit.Chain.{IsFormat, Agrees, extended-Agrees}
use confidential_agent.Gateway.Audit.Reopening.{append-written, open_store-Agrees}
use confidential_agent.Gateway.Tools.{JsonRpcRequest, parse_json_rpc}
use confidential_agent.Gateway.Mcp.Respond.{HttpResponse, McpHost, audit_input, respond}
use confidential_agent.Gateway.Mcp.Answers.{
  answers, answers-append_answered, answers-append_withheld, answers-append_invalid,
}
use confidential_agent.Gateway.Mcp.{
  Exchange, Sent, withheld, Connection, release, audit_and_release, round, handle_mcp_connection,
}

module _ (host : McpHost) (encoders : Encoders) (format : LineFormat) (sound : IsFormat format)
    (caller : VerifiedCaller) where
  -- The last that was sent is the error of a record that was not written.
  abbrev pub EndsWithheld : List Sent → Type 0
  EndsWithheld sent =
      (before : List Sent) × (response : HttpResponse) × (sent ≡ before ++ (withheld response ∷ []))

  -- The file's lines agree with the store up to at most one line, which only a record that was not
  -- written can leave; and all of the file agrees where the connection goes on.
  pub record Stands (c : Connection format) : Type 0 where
    pub positive : 0 < c.store.next_seq
    pub recorded : List format.Line
    pub left_over : List format.Line
    pub whole : c.file.lines ≡ recorded ++ left_over
    pub short : length left_over ≤ 1
    pub settled : (left_over ≡ []) ⊎ EndsWithheld c.sent
    pub agrees : Agrees encoders format sound (record { lines = recorded; ended = true }) c.store
    pub resumes : c.open_for_more ≡ true → Agrees encoders format sound c.file c.store

  -- From one standing to the next each answer has added a record.
  pub record Advances (c d : Connection format) : Type 0 where
    pub stands : Stands d
    pub counts : d.store.next_seq + answers c.sent ≡ c.store.next_seq + answers d.sent

  abbrev record_line : Connection format → AuditInput → format.Line
  record_line c input = format.write_line (next_line encoders c.store (call_entry input))

  append-nil : {A : Type 0} → (xs : List A) → xs ++ [] ≡ xs
  append-nil [] = refl
  append-nil (x ∷ xs) = ap (λ l. x ∷ l) (append-nil xs)

  whole_file :
      (file : AuditFile format) (store : AuditStore)
      → Agrees encoders format sound file store
      → Agrees encoders format sound (record { lines = file.lines; ended = true }) store
  whole_file file store a = record {
    closed = refl;
    clean = a.clean;
    counted = a.counted;
    linked = a.linked;
    reported = a.reported;
    reopened = a.reopened;
  }

  -- A file that agrees with the store has nothing left over.
  Agrees-Stands :
      (c : Connection format)
      → 0 < c.store.next_seq
      → Agrees encoders format sound c.file c.store
      → Stands c
  Agrees-Stands c h a = record {
    positive = h;
    recorded = c.file.lines;
    left_over = [];
    whole = sym (append-nil c.file.lines);
    short = omega arith;
    settled = inl refl;
    agrees = whole_file c.file c.store a;
    resumes = λ more. a;
  }

  -- What a write leaves over, of a file whose last line has ended.
  left_by :
      (write : Write) (line : format.Line) (file : AuditFile format)
      → file.ended ≡ true
      → (left : List format.Line) × ((write_file format write line file).lines ≡ file.lines ++ left)
        × (length left ≤ 1)
  unfolding write_file
  left_by written line file h = (line ∷ [], rw h refl, omega arith)
  left_by unsynced line file h = (line ∷ [], rw h refl, omega arith)
  left_by unended line file h = (line ∷ [], rw h refl, omega arith)
  left_by (part n) line file h = (format.cut (suc n) line ∷ [], rw h refl, omega arith)
  left_by unopened line file h = ([], sym (append-nil file.lines), omega arith)

  -- A record that was not written: the answer is withheld, and the connection ends.
  withheld-Advances :
      (c : Connection format) (write : Write) (line : format.Line) (response : HttpResponse)
      → 0 < c.store.next_seq
      → Agrees encoders format sound c.file c.store
      → Advances c (record c {
        sent = c.sent ++ (withheld response ∷ []);
        file = write_file format write line c.file;
        open_for_more = false;
      })
  withheld-Advances c write line response h a =
      let (left, whole, short) = left_by write line c.file a.closed in
      record {
        stands = record {
          positive = h;
          recorded = c.file.lines;
          left_over = left;
          whole = whole;
          short = short;
          settled = inr (c.sent, response, refl);
          agrees = whole_file c.file c.store a;
          resumes = λ more. cc;
        };
        counts = ap (λ n. c.store.next_seq + n) (sym (answers-append_withheld c.sent response));
      }

  release-Advances :
      (exchange : Exchange) (rpc : JsonRpcRequest) (response : HttpResponse) (c : Connection format)
      (write : Write) (input : AuditInput)
      → 0 < c.store.next_seq
      → Agrees encoders format sound c.file c.store
      → Advances c (
          release host encoders format caller exchange rpc response c
            (append encoders format write input c.store c.file))
  release-Advances exchange rpc response c written input h a =
      rw (append-written encoders format sound input c.store c.file a.closed) (record {
        stands =
            Agrees-Stands _ (omega arith)
              (extended-Agrees encoders format sound (call_entry input) c.store c.file a);
        counts = omega (arith, answers-append_answered c.sent response);
      })
  release-Advances exchange rpc response c unopened input h a =
      unfold append append_record when_written in
      withheld-Advances c unopened (record_line c input) _ h a
  release-Advances exchange rpc response c unended input h a =
      unfold append append_record when_written in
      withheld-Advances c unended (record_line c input) _ h a
  release-Advances exchange rpc response c unsynced input h a =
      unfold append append_record when_written in
      withheld-Advances c unsynced (record_line c input) _ h a
  release-Advances exchange rpc response c (part n) input h a =
      unfold append append_record when_written in
      withheld-Advances c (part n) (record_line c input) _ h a

  round-Advances :
      (exchange : Exchange) (rpc : JsonRpcRequest) (method : Option String) (c : Connection format)
      → 0 < c.store.next_seq
      → Agrees encoders format sound c.file c.store
      → Advances c (round host encoders format caller exchange rpc method c)
  round-Advances exchange rpc none c h a = record {
    stands = Agrees-Stands _ h a;
    counts = ap (λ n. c.store.next_seq + n) (sym (answers-append_invalid c.sent _));
  }
  round-Advances exchange rpc (some method) c h a = go (
      respond host encoders exchange.request rpc (status c.store)
        (verify_path encoders format (some c.file.lines)) exchange.now)
    where
      go :
          (r : Result HttpResponse)
          → Advances c (audit_and_release host encoders format caller exchange rpc method c r)
      go (err e) = record { stands = Agrees-Stands _ h a; counts = refl }
      go (ok response) =
          release-Advances exchange rpc response c exchange.write
            (audit_input host encoders caller exchange.now rpc method response) h a

  stop_or_go :
      (more : Bool) (c d : Connection format)
      → Advances c c
      → (more ≡ true → Advances c d)
      → Advances c (if more then d else c)
  stop_or_go true c d stop go = go refl
  stop_or_go false c d stop go = stop

  Advances-trans : (c d e : Connection format) → Advances c d → Advances d e → Advances c e
  Advances-trans c d e first later = record {
    stands = later.stands;
    counts = omega (arith, first.counts, later.counts);
  }

  connection-Advances :
      (exchanges : List Exchange) (c : Connection format)
      → Stands c
      → Advances c (handle_mcp_connection host encoders format caller exchanges c)
  unfolding handle_mcp_connection
  connection-Advances [] c s = record { stands = s; counts = refl }
  connection-Advances (exchange ∷ exchanges) c s =
      let rpc = parse_json_rpc host.read_json exchange.request.body in
      let next = round host encoders format caller exchange rpc rpc.method c in
      let later = connection-Advances exchanges next in
      stop_or_go c.open_for_more c
        (handle_mcp_connection host encoders format caller exchanges next)
        (record { stands = s; counts = refl })
        (λ more.
          let first = round-Advances exchange rpc rpc.method c s.positive (s.resumes more) in
          Advances-trans c next (handle_mcp_connection host encoders format caller exchanges next)
            first (later first.stands))

  -- Where a connection came from one standing to another: the lines of its file but for one at most,
  -- left by a record that failed, verify up to the store's count and hash, and each answer has its own.
  pub record IsAudited (c d : Connection format) : Type 0 where
    pub recorded : List format.Line
    pub left_over : List format.Line
    pub whole : d.file.lines ≡ recorded ++ left_over
    pub short : length left_over ≤ 1
    pub settled : (left_over ≡ []) ⊎ EndsWithheld d.sent
    pub verified : verify_path encoders format (some recorded) ≡ record {
      valid = true;
      total_records = d.store.next_seq;
      latest_hash = some d.store.latest_hash;
      errors = [];
    }
    pub counts : d.store.next_seq + answers c.sent ≡ c.store.next_seq + answers d.sent

  -- When a connection has been served, from a store that agrees with its file, whatever its requests and
  -- however far each write to the audit file or the socket got, the file's records verify up to the
  -- store's count and hash, and they are one more for each answer whose sending was begun; a further
  -- line is left, one at most, only where the last that was sent is the error in place of an answer.
  pub handle_mcp_connection-IsAudited :
      (exchanges : List Exchange) (c : Connection format)
      → 0 < c.store.next_seq
      → Agrees encoders format sound c.file c.store
      → IsAudited c (handle_mcp_connection host encoders format caller exchanges c)
  handle_mcp_connection-IsAudited exchanges c h a =
      let end = handle_mcp_connection host encoders format caller exchanges c in
      let advances = connection-Advances exchanges c (Agrees-Stands c h a) in
      let stands = advances.stands in
      record {
        recorded = stands.recorded;
        left_over = stands.left_over;
        whole = stands.whole;
        short = stands.short;
        settled = stands.settled;
        verified =
            (open_store-Agrees encoders format sound written "" 0 end.store
              (record { lines = stands.recorded; ended = true }) stands.positive stands.agrees).1;
        counts = advances.counts;
      }
