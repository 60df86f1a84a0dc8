-- ===== src/Tests/Store.antt =====
-- The engine and the audit store.
use policy_driven_rate_limit.Prelude.{
  All, Bytes, List, get_or, is_some, Option, [], ap, arith, codes, decimal, decimal-IsDigits, equal,
  if◌then◌else◌, insert, is_digit, length, lookup, ltb, negsuc, not, number_from,
  number_from-decimal, pos, refl, show_int, some, suc, true, ℕ, ℤ, ◌++◌, ◌+◌, ◌-◌, ◌==◌, ◌∙◌, ◌∷◌,
  ◌≡◌,
}
use policy_driven_rate_limit.Engine.{
  RateLimitStrategy, PolicyEngine, empty, set_policy, ensure_policy, find_entry, evaluate_detailed,
}
use policy_driven_rate_limit.Engine.Valid.{IsValid, empty-IsValid, set_policy-IsValid}
use policy_driven_rate_limit.Engine.Interleaving
use policy_driven_rate_limit.Engine.Interleaving.{
  Call, setting, ensuring, evaluating, resetting, ensured_evaluates,
}
use policy_driven_rate_limit.Engine.View.{strategy_of, strategy_of-policies, evaluate_found}
use policy_driven_rate_limit.Database.{
  Database, appended, torn, log_request, save_tenant, delete_tenant,
}
use policy_driven_rate_limit.Database
use policy_driven_rate_limit.Database.Fields.{encode_field}
use policy_driven_rate_limit.Database.Rows.{
  TenantRecord, StoredRequest, render, tenant_row, parse_file,
}
use policy_driven_rate_limit.Database.Bounds.{
  log_request-keeps, saving, deleting, logging, after_calls, after_calls-IsValid,
}
use policy_driven_rate_limit.Database.Reload.{
  Reads, IsTenant, IsRequest, parse_file-render, parse_file_loses,
}

-- A strategy that counts down, in a world that counts the calls.
abbrev countdown : RateLimitStrategy ℕ ℕ
countdown = record {
  allow_request = λ s w. (s - 1, w + 1, ltb 0 s);
  get_state = λ s w. (decimal s, w);
  reset = λ s w. (3, w);
  algorithm_name = λ s. codes "Countdown";
  last_error = λ s. [];
}

abbrev one_tenant : PolicyEngine ℕ
one_tenant = set_policy empty (codes "a") 3

one_tenant-IsValid : IsValid one_tenant
one_tenant-IsValid = set_policy-IsValid empty (codes "a") 3 empty-IsValid

strategy_of-policies_example :
    (strategy_of (set_policy one_tenant (codes "b") 5) (codes "a")
      ≡ (if equal (codes "b") (codes "a") then some 5 else strategy_of one_tenant (codes "a")))
    × ((ensure_policy one_tenant (codes "b") 5).1
        ≡ not (is_some (strategy_of one_tenant (codes "b"))))
    × (strategy_of (ensure_policy one_tenant (codes "b") 5).0 (codes "a") ≡ (
        if equal (codes "b") (codes "a")
        then some (get_or (strategy_of one_tenant (codes "b")) 5)
        else strategy_of one_tenant (codes "a")))
strategy_of-policies_example =
    strategy_of-policies one_tenant (codes "b") (codes "a") 5 one_tenant-IsValid

one_tenant_strategy : strategy_of one_tenant (codes "a") ≡ some 3
unfolding strategy_of set_policy find_entry lookup insert equal
one_tenant_strategy = refl

evaluate_found_example :
    ((evaluate_detailed countdown one_tenant (codes "a") 0).1 ≡ 1)
    × ((evaluate_detailed countdown one_tenant (codes "a") 0).2 ≡ record {
      found = true;
      allowed = true;
      algorithm = codes "Countdown";
      state = codes "2";
      error = [];
    })
    × ((j : Bytes)
        → strategy_of (evaluate_detailed countdown one_tenant (codes "a") 0).0 j
          ≡ (if equal (codes "a") j then some 2 else strategy_of one_tenant j))
unfolding decimal
evaluate_found_example =
    evaluate_found countdown one_tenant (codes "a") 3 0 one_tenant-IsValid one_tenant_strategy

-- Another thread makes sure of the same tenant, sets another, and resets the first.
abbrev others : List (Call ℕ)
others =
    ensuring (codes "a") 5
    ∷ setting (codes "b") 1
    ∷ resetting (codes "a")
    ∷ evaluating (codes "b")
    ∷ []

ensured_evaluates_example :
    (evaluate_detailed countdown
      (Interleaving.after_calls countdown ((ensure_policy empty (codes "a") 3).0, 0) others).0
      (codes "a")
      (Interleaving.after_calls countdown
        ((ensure_policy empty (codes "a") 3).0, 0)
        others).1).2.found
    ≡ true
ensured_evaluates_example = ensured_evaluates countdown empty 0 (codes "a") 3 others empty-IsValid

encode_run : encode_field (codes "a\tb") ≡ codes "a%09b"
unfolding encode_field
encode_run = refl

abbrev tenant : TenantRecord
tenant = record {
  id = codes "a";
  name = codes "A B";
  algorithm = codes "TokenBucket";
  params = codes "3";
}

abbrev request : StoredRequest
request = record {
  tenant_id = codes "a";
  timestamp_ms = pos 7;
  result = codes "ALLOW";
  algorithm = codes "TokenBucket";
  state_snapshot = codes "tokens=2";
}

abbrev store : Database
store = record {
  available = true;
  tenants = tenant ∷ [];
  requests = [];
  file = render (tenant ∷ []) [];
}

store-IsValid : Database.Bounds.IsValid store
store-IsValid = record { bounded = omega arith; synced = λ _. refl }

abbrev three_calls : List Database.Bounds.Call
three_calls =
    logging request true appended ∷ deleting (codes "a") true ∷ logging request true (torn 4) ∷ []

after_calls-IsValid_example : Database.Bounds.IsValid (after_calls store three_calls)
after_calls-IsValid_example =
    after_calls-IsValid store three_calls (tt, (tt, (tt, tt))) store-IsValid

store_logs : (log_request store request true appended).1 ≡ true
unfolding log_request
store_logs = refl

log_request-keeps_example : (log_request store request true appended).0.requests ≡ request ∷ []
log_request-keeps_example = log_request-keeps store request true appended store_logs

-- A reader of numbers that takes the whole text.
abbrev pub reader : Bytes → Option (ℤ × ℕ)
reader [] = some (pos 0, 0)
reader (c ∷ cs) =
    if c == b'-'
    then some (negsuc (number_from 0 cs - 1), suc (length cs))
    else some (pos (number_from 0 (c ∷ cs)), suc (length cs))

reader_digits :
    (s : Bytes) → All (λ c. is_digit c ≡ true) s → reader s ≡ some (pos (number_from 0 s), length s)
reader_digits [] h = unfold number_from in refl
reader_digits (c ∷ s) h = ground arith

pub reader-Reads : Reads reader
unfolding show_int
reader-Reads (pos n) range =
    reader_digits (decimal n) (decimal-IsDigits n)
    ∙ ap (λ (k : ℕ). some (pos k, length (decimal n))) (number_from-decimal n)
reader-Reads (negsuc n) range =
    let same : number_from 0 (decimal (n + 1)) - 1 ≡ n =
      omega (arith, number_from-decimal (n + 1)) in
    ap (λ (k : ℕ). some (negsuc k, suc (length (decimal (n + 1))))) same

tenant-IsTenant : IsTenant tenant
tenant-IsTenant = record {
  id = omega arith;
  name = omega arith;
  algorithm = omega arith;
  params = omega arith;
  params_ne = λ e. cc;
}

request-IsRequest : IsRequest request
request-IsRequest = record {
  tenant_id = omega arith;
  stamp = omega arith;
  result = omega arith;
  algorithm = omega arith;
  state_snapshot = omega arith;
  snapshot_ne = λ e. cc;
}

parse_file-render_example :
    parse_file reader (render (tenant ∷ []) (request ∷ [])) ≡ (tenant ∷ [], request ∷ [])
parse_file-render_example =
    parse_file-render reader reader-Reads (tenant ∷ []) (request ∷ []) (tenant-IsTenant, tt)
      (request-IsRequest, tt)

parse_file_loses_example :
    parse_file reader (tenant_row (record tenant { params = [] }) ++ []) ≡ parse_file reader []
parse_file_loses_example =
    parse_file_loses reader (record tenant { params = [] }) [] (omega arith) (omega arith)
      (omega arith) refl
