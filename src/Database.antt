-- ===== src/Database.antt =====
-- Database.h and Database.cpp: the audit store. The lock is held for each call, so a call is one
-- step. `file` is the content of the file at `path_`; whether the file system lets a write through
-- is an argument of the calls that write.
pub mod Fields
pub mod Rows
pub mod RoundTrip
pub mod Reload
pub mod Bounds
pub mod Sorted
use policy_driven_rate_limit.Prelude.{
  Bool, Bytes, List, Option, [], before, codes, drop, equal, false, if◌then◌else◌, length, lt_int,
  ltb, not, pos, reverse, take, true, ℕ, ℤ, ◌&&◌, ◌++◌, ◌+◌, ◌-◌, ◌∷◌,
}
use Rows.{TenantRecord, StoredRequest, render, request_row, parse_file}

pub record Database : Type 0 where
  pub available : Bool
  pub tenants : List TenantRecord
  pub requests : List StoredRequest
  pub file : Bytes

-- A rewrite goes to a temporary file that replaces the old one whole, or not at all. An append writes
-- its row to the buffer of the stream, which is tested before the row is flushed: what fails by then
-- is reported, and may leave the front of the row; what fails in the flush, as the stream is closed,
-- goes unnoticed, and may leave the front of the row too.
pub data Append : Type 0 where
  appended : Append
  torn : ℕ → Append
  unnoticed : ℕ → Append

abbrev pub max_audit_records : ℕ
max_audit_records = 100000

-- The constructor on a file that can be opened, and `loadFromFile` on its content.
unfoldable pub open_database : (Bytes → Option (ℤ × ℕ)) → Bytes → Database
open_database stoll file =
    let (tenants, requests) = parse_file stoll file in
    record { available = true; tenants = tenants; requests = requests; file = file }

unfoldable pub flush_to_file : Database → Bool → Database × Bool
flush_to_file db replaced =
    if db.available && replaced
    then (record db { file = render db.tenants db.requests }, true)
    else (db, false)

-- `if (!flushToFile()) { available_ = false; return false; } return true;`
flush_or_close : Database → Bool → Database × Bool
unfolding flush_to_file
flush_or_close db replaced =
    let (db', done) = flush_to_file db replaced in
    if done then (db', true) else (record db' { available = false }, false)

-- `*it = rec` at the first record with the id, or `push_back`.
unfoldable pub put_tenant : TenantRecord → List TenantRecord → List TenantRecord
put_tenant rec [] = rec ∷ []
put_tenant rec (t ∷ ts) = if equal t.id rec.id then rec ∷ ts else t ∷ put_tenant rec ts

unfoldable pub save_tenant : Database → TenantRecord → Bool → Database × Bool
unfolding flush_or_close put_tenant
save_tenant db rec replaced =
    if db.available
    then flush_or_close (record db { tenants = put_tenant rec db.tenants }) replaced
    else (db, false)

unfoldable pub erase_tenant : Bytes → List TenantRecord → List TenantRecord
erase_tenant id [] = []
erase_tenant id (t ∷ ts) = if equal t.id id then erase_tenant id ts else t ∷ erase_tenant id ts

unfoldable pub delete_tenant : Database → Bytes → Bool → Database × Bool
unfolding flush_or_close erase_tenant
delete_tenant db id replaced =
    if db.available
    then flush_or_close (record db { tenants = erase_tenant id db.tenants }) replaced
    else (db, false)

-- `std::sort` by id: where no two ids are equal it has one result only, which insertion computes.
insert_tenant : TenantRecord → List TenantRecord → List TenantRecord
insert_tenant rec [] = rec ∷ []
insert_tenant rec (t ∷ ts) =
    let later = insert_tenant rec ts in if before t.id rec.id then t ∷ later else rec ∷ t ∷ ts

unfoldable pub sorted_tenants : List TenantRecord → List TenantRecord
unfolding insert_tenant
sorted_tenants [] = []
sorted_tenants (t ∷ ts) = insert_tenant t (sorted_tenants ts)

unfoldable pub load_all_tenants : Database → List TenantRecord
unfolding sorted_tenants
load_all_tenants db = if db.available then sorted_tenants db.tenants else []

-- What `appendRequestToFile` leaves in the file.
append_row : Bytes → StoredRequest → Append → Bytes
append_row file r appended = file ++ request_row r
append_row file r (torn n) = file ++ take n (request_row r)
append_row file r (unnoticed n) = file ++ take n (request_row r)

append_or_close : Database → StoredRequest → Append → Database × Bool
unfolding append_row
append_or_close db r appended = (record db { file = append_row db.file r appended }, true)
append_or_close db r (torn n) =
    (record db { file = append_row db.file r (torn n); available = false }, false)
append_or_close db r (unnoticed n) = (record db { file = append_row db.file r (unnoticed n) }, true)

-- Behind `push_back`: compact, or append.
write_request : Database → StoredRequest → Bool → Append → Database × Bool
unfolding flush_or_close append_or_close
write_request db r replaced append =
    let size = length db.requests in
    if ltb max_audit_records size
    then flush_or_close (record db { requests = drop (size - max_audit_records) db.requests })
        replaced
    else append_or_close db r append

unfoldable pub log_request : Database → StoredRequest → Bool → Append → Database × Bool
unfolding write_request
log_request db r replaced append =
    if db.available
    then write_request (record db { requests = db.requests ++ (r ∷ []) }) r replaced append
    else (db, false)

-- The loop of `getRequestLog` over the requests, newest first; `taken` counts `records`.
unfoldable pub collect_log : Bytes → ℤ → ℕ → List StoredRequest → List StoredRequest
collect_log tenant_id limit taken [] = []
collect_log tenant_id limit taken (r ∷ rs) =
    let skip = collect_log tenant_id limit taken rs in
    let more = collect_log tenant_id limit (taken + 1) rs in
    if not (equal r.tenant_id tenant_id)
    then skip
    else if not (lt_int (pos (taken + 1)) limit)
    then r ∷ []
    else r ∷ more

unfoldable pub get_request_log : Database → Bytes → ℤ → List StoredRequest
unfolding collect_log
get_request_log db tenant_id limit =
    if db.available then collect_log tenant_id limit 0 (reverse db.requests) else []

abbrev pub count : (StoredRequest → Bool) → List StoredRequest → ℕ
count p [] = 0
count p (r ∷ rs) = (if p r then 1 else 0) + count p rs

unfoldable pub get_total_requests : Database → Bytes → ℕ
get_total_requests db tenant_id = count (λ r. equal r.tenant_id tenant_id) db.requests

unfoldable pub get_total_allowed : Database → Bytes → ℕ
get_total_allowed db tenant_id =
    count (λ r. equal r.tenant_id tenant_id && equal r.result (codes "ALLOW")) db.requests

unfoldable pub get_total_denied : Database → Bytes → ℕ
get_total_denied db tenant_id =
    count (λ r. equal r.tenant_id tenant_id && equal r.result (codes "DENY")) db.requests
