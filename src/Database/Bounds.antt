-- ===== src/Database/Bounds.antt =====
-- The store is bounded, and its file holds what it holds.
use policy_driven_rate_limit.Prelude.{
  Bool, Bool-cases, Bytes, List, [], ap, append-nil, append_assoc, arith, drop, if_either, inl, inr,
  length, length-drop, ltb, refl, sym, true, All, ℕ, ◌&&◌, ◌++◌, ◌-◌, ◌∙◌, ◌∷◌, ◌≡◌, ◌≤◌,
}
use policy_driven_rate_limit.Database.Rows.{
  TenantRecord, StoredRequest, tenant_rows, request_row, request_rows, render,
}
use policy_driven_rate_limit.Database.{
  Database, Append, appended, torn, unnoticed, max_audit_records, flush_or_close, put_tenant,
  save_tenant, erase_tenant, delete_tenant, append_row, append_or_close, write_request, log_request,
}

-- How an append ends, other than that the flush fails behind the test of the stream.
abbrev pub IsNoticed : Append → Type 0
IsNoticed appended = Unit {0}
IsNoticed (torn n) = Unit {0}
IsNoticed (unnoticed n) = ⊥

-- While the store is available its file is a rendering of its records, so that a restart finds them.
pub record IsValid (db : Database) : Type 0 where
  pub bounded : length db.requests ≤ max_audit_records
  pub synced : db.available ≡ true → db.file ≡ render db.tenants db.requests

abbrev LeavesValid : Database × Bool → Type 0
LeavesValid r = IsValid r.0

flush-IsValid :
    (db : Database) (replaced : Bool)
    → length db.requests ≤ max_audit_records
    → IsValid (flush_or_close db replaced).0
unfolding flush_or_close
flush-IsValid db replaced h = elim (Bool-cases (db.available && replaced)) [
  | inl done ↦ rw done (record { bounded = h; synced = λ _. refl })
  | inr failed ↦ rw failed (record { bounded = h; synced = λ e. cc })
]

request_rows-append :
    (rs : List StoredRequest) (r : StoredRequest)
    → request_rows (rs ++ (r ∷ [])) ≡ request_rows rs ++ request_row r
unfolding request_rows
request_rows-append [] r = append-nil (request_row r)
request_rows-append (q ∷ rs) r =
    ap (◌++◌ (request_row q)) (request_rows-append rs r)
    ∙ sym (append_assoc (request_row q) (request_rows rs) (request_row r))

render-append :
    (ts : List TenantRecord) (rs : List StoredRequest) (r : StoredRequest)
    → render ts (rs ++ (r ∷ [])) ≡ render ts rs ++ request_row r
unfolding render
render-append ts rs r =
    ap (◌++◌ (tenant_rows ts)) (request_rows-append rs r)
    ∙ sym (append_assoc (tenant_rows ts) (request_rows rs) (request_row r))

-- Saving a tenant, successful or not, keeps the history within 100000 requests, and the file what
-- the records render to while the store is available.
save_tenant-IsValid :
    (db : Database) (rec : TenantRecord) (replaced : Bool)
    → IsValid db
    → IsValid (save_tenant db rec replaced).0
unfolding save_tenant
save_tenant-IsValid db rec replaced v =
    if_either LeavesValid db.available _ _
      (λ _. flush-IsValid (record db { tenants = put_tenant rec db.tenants }) replaced v.bounded)
      (λ _. v)

-- Deleting a tenant, successful or not, keeps the history within 100000 requests, and the file what
-- the records render to while the store is available.
delete_tenant-IsValid :
    (db : Database) (id : Bytes) (replaced : Bool)
    → IsValid db
    → IsValid (delete_tenant db id replaced).0
unfolding delete_tenant
delete_tenant-IsValid db id replaced v =
    if_either LeavesValid db.available _ _
      (λ _. flush-IsValid (record db { tenants = erase_tenant id db.tenants }) replaced v.bounded)
      (λ _. v)

append-IsValid :
    (db : Database) (r : StoredRequest) (outcome : Append) (old : List StoredRequest)
    → db.requests ≡ old ++ (r ∷ [])
    → db.file ≡ render db.tenants old
    → length db.requests ≤ max_audit_records
    → IsNoticed outcome
    → IsValid (append_or_close db r outcome).0
unfolding append_or_close append_row
append-IsValid db r appended old e f h told = record {
  bounded = h;
  synced = λ _.
      ap (λ (t : Bytes). t ++ request_row r) f
      ∙ sym (render-append db.tenants old r)
      ∙ ap (render db.tenants) (sym e);
}
append-IsValid db r (torn n) old e f h told = record { bounded = h; synced = λ up. cc }
append-IsValid db r (unnoticed n) old e f h told = absurd told

-- Logging a request, also where the append is torn or the compaction fails, but not where a flush
-- fails unnoticed, keeps the history within 100000 requests, and the file what the records render to while the store is available.
pub log_request-IsValid :
    (db : Database) (r : StoredRequest) (replaced : Bool) (outcome : Append)
    → IsNoticed outcome
    → IsValid db
    → IsValid (log_request db r replaced outcome).0
unfolding log_request write_request
log_request-IsValid db r replaced outcome told v =
    let all = db.requests ++ (r ∷ []) in
    let db' = record db { requests = all } in
    if_either LeavesValid db.available _ _
      (λ up.
        if_either LeavesValid (ltb max_audit_records (length all)) _ _
          (λ over.
            flush-IsValid (record db { requests = drop (length all - max_audit_records) all })
              replaced (omega (arith, length-drop (length all - max_audit_records) all)))
          (λ fits. append-IsValid db' r outcome db.requests refl (v.synced up) (ground arith) told))
      (λ _. v)

-- The requests that a call leaves, if it succeeds.
abbrev LeavesRequests : List StoredRequest → Database × Bool → Type 0
LeavesRequests rs r = r.1 ≡ true → r.0.requests ≡ rs

flush-LeavesRequests :
    (db : Database) (replaced : Bool) → LeavesRequests db.requests (flush_or_close db replaced)
unfolding flush_or_close
flush-LeavesRequests db replaced = elim (Bool-cases (db.available && replaced)) [
  | inl done ↦ rw done (λ _. refl)
  | inr failed ↦ rw failed (λ e. cc)
]

append-LeavesRequests :
    (db : Database) (r : StoredRequest) (outcome : Append)
    → LeavesRequests db.requests (append_or_close db r outcome)
unfolding append_or_close
append-LeavesRequests db r appended = λ _. refl
append-LeavesRequests db r (torn n) = λ e. cc
append-LeavesRequests db r (unnoticed n) = λ _. refl

-- Where logging a request reports success, the history is the old one with the request at its end,
-- less as many of the oldest as it has above 100000.
pub log_request-keeps :
    (db : Database) (r : StoredRequest) (replaced : Bool) (outcome : Append)
    → (log_request db r replaced outcome).1 ≡ true
    → (log_request db r replaced outcome).0.requests
      ≡ drop (length (db.requests ++ (r ∷ [])) - max_audit_records) (db.requests ++ (r ∷ []))
unfolding log_request write_request
log_request-keeps db r replaced outcome =
    let all = db.requests ++ (r ∷ []) in
    let excess = length all - max_audit_records in
    if_either (LeavesRequests (drop excess all)) db.available _ _
      (λ up.
        if_either (LeavesRequests (drop excess all)) (ltb max_audit_records (length all)) _ _
          (λ over. flush-LeavesRequests (record db { requests = drop excess all }) replaced)
          (λ fits e.
            let none_over : excess ≡ 0 = ground arith in
            append-LeavesRequests (record db { requests = all }) r outcome e
            ∙ sym (ap (λ (n : ℕ). drop n all) none_over)))
      (λ down e. cc)

-- A call that writes, with how its write ends.
pub data Call : Type 0 where
  saving : TenantRecord → Bool → Call
  deleting : Bytes → Bool → Call
  logging : StoredRequest → Bool → Append → Call

abbrev pub after_call : Database → Call → Database
after_call db (saving rec replaced) = (save_tenant db rec replaced).0
after_call db (deleting id replaced) = (delete_tenant db id replaced).0
after_call db (logging r replaced outcome) = (log_request db r replaced outcome).0

abbrev pub after_calls : Database → List Call → Database
after_calls db [] = db
after_calls db (c ∷ cs) = after_calls (after_call db c) cs

-- A call whose append, if it makes one, does not fail unnoticed.
abbrev pub Notices : Call → Type 0
Notices (saving rec replaced) = Unit {0}
Notices (deleting id replaced) = Unit {0}
Notices (logging r replaced outcome) = IsNoticed outcome

after_call-IsValid : (db : Database) (c : Call) → Notices c → IsValid db → IsValid (after_call db c)
after_call-IsValid db (saving rec replaced) told v = save_tenant-IsValid db rec replaced v
after_call-IsValid db (deleting id replaced) told v = delete_tenant-IsValid db id replaced v
after_call-IsValid db (logging r replaced outcome) told v =
    log_request-IsValid db r replaced outcome told v

-- Any sequence of calls that save or delete a tenant or log a request, successful or not, also
-- where an append is torn or a rewrite fails, but none where the flush of an append fails
-- unnoticed, keeps the history within 100000 requests, and the file what the records render to
-- while the store is available.
pub after_calls-IsValid :
    (db : Database) (calls : List Call)
    → All Notices calls
    → IsValid db
    → IsValid (after_calls db calls)
after_calls-IsValid db [] told v = v
after_calls-IsValid db (c ∷ cs) told v =
    after_calls-IsValid (after_call db c) cs told.1 (after_call-IsValid db c told.0 v)
