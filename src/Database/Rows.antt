-- ===== src/Database/Rows.antt =====
-- The rows of the audit file, as Database.cpp writes and reads them.
use policy_driven_rate_limit.Prelude.{
  Bytes, List, Option, [], codes, equal, if◌then◌else◌, length, none, show_int, some, ℕ, ℤ, ◌&&◌,
  ◌++◌, ◌==◌, ◌∷◌,
}
use policy_driven_rate_limit.Database.Fields.{encode_field, decode_field}

pub record TenantRecord : Type 0 where
  pub id : Bytes
  pub name : Bytes
  pub algorithm : Bytes
  pub params : Bytes

-- `StoredRequest` with its `RequestRecord`. The stamp is a long long: a number with IsLongLong.
pub record StoredRequest : Type 0 where
  pub tenant_id : Bytes
  pub timestamp_ms : ℤ
  pub result : Bytes
  pub algorithm : Bytes
  pub state_snapshot : Bytes

-- Successive calls of `std::getline(in, part, stop)`: what is read so far, and what is left. A call
-- that reads nothing before the end of the input fails.
unfoldable pub split_from : ℕ → Bytes → Bytes → List Bytes
split_from stop [] [] = []
split_from stop (x ∷ part) [] = (x ∷ part) ∷ []
split_from stop part (c ∷ cs) =
    if c == stop then part ∷ split_from stop [] cs else split_from stop (part ++ (c ∷ [])) cs

unfoldable pub split_tabs : Bytes → List Bytes
unfolding split_from
split_tabs line = split_from b'\t' [] line

unfoldable pub split_lines : Bytes → List Bytes
unfolding split_from
split_lines text = split_from b'\n' [] text

unfoldable pub tenant_row : TenantRecord → Bytes
tenant_row t =
    codes "TENANT\t"
    ++ (encode_field t.id
        ++ (b'\t'
            ∷ (encode_field t.name
                ++ (b'\t'
                    ∷ (encode_field t.algorithm
                        ++ (b'\t' ∷ (encode_field t.params ++ (b'\n' ∷ []))))))))

unfoldable pub request_row : StoredRequest → Bytes
request_row r =
    codes "REQUEST\t"
    ++ (encode_field r.tenant_id
        ++ (b'\t'
            ∷ (show_int r.timestamp_ms
                ++ (b'\t'
                    ∷ (encode_field r.result
                        ++ (b'\t'
                            ∷ (encode_field r.algorithm
                                ++ (b'\t' ∷ (encode_field r.state_snapshot ++ (b'\n' ∷ []))))))))))

unfoldable pub tenant_rows : List TenantRecord → Bytes
unfolding tenant_row
tenant_rows [] = []
tenant_rows (t ∷ ts) = tenant_row t ++ tenant_rows ts

unfoldable pub request_rows : List StoredRequest → Bytes
unfolding request_row
request_rows [] = []
request_rows (r ∷ rs) = request_row r ++ request_rows rs

-- What `flushToFile` writes.
unfoldable pub render : List TenantRecord → List StoredRequest → Bytes
unfolding tenant_rows request_rows
render tenants requests = tenant_rows tenants ++ request_rows requests

-- What a line of the file stands for. `stoll` is std::stoll: the number, of
-- type long long, and how many bytes it took, or none where it throws, also where the number is out
-- of range.
pub data Row : Type 0 where
  tenant_of : TenantRecord → Row
  request_of : StoredRequest → Row
  ignored : Row

abbrev pub add_row :
    Row → List TenantRecord × List StoredRequest → List TenantRecord × List StoredRequest
add_row (tenant_of t) (tenants, requests) = (t ∷ tenants, requests)
add_row (request_of r) (tenants, requests) = (tenants, r ∷ requests)
add_row ignored rows = rows

module _ (stoll : Bytes → Option (ℤ × ℕ)) where
  unfoldable pub parse_tenant : List Bytes → Row
  parse_tenant (id ∷ name ∷ algorithm ∷ params ∷ []) = tenant_of (record {
    id = decode_field id;
    name = decode_field name;
    algorithm = decode_field algorithm;
    params = decode_field params;
  })
  parse_tenant _ = ignored

  -- `consumed != parts[2].size()` throws, and the row is ignored.
  unfoldable pub stamped : Option (ℤ × ℕ) → Bytes → Bytes → Bytes → Bytes → Bytes → Row
  stamped none stamp tenant_id result algorithm state = ignored
  stamped (some (timestamp, consumed)) stamp tenant_id result algorithm state =
      if consumed == length stamp
      then request_of (record {
        tenant_id = decode_field tenant_id;
        timestamp_ms = timestamp;
        result = decode_field result;
        algorithm = decode_field algorithm;
        state_snapshot = decode_field state;
      })
      else ignored

  unfoldable pub parse_request : List Bytes → Row
  unfolding stamped
  parse_request (tenant_id ∷ stamp ∷ result ∷ algorithm ∷ state ∷ []) =
      stamped (stoll stamp) stamp tenant_id result algorithm state
  parse_request _ = ignored

  unfoldable pub parse_parts : List Bytes → Row
  unfolding parse_tenant parse_request
  parse_parts [] = ignored
  parse_parts (kind ∷ parts) =
      if equal kind (codes "TENANT") && length parts == 4
      then parse_tenant parts
      else if equal kind (codes "REQUEST") && length parts == 5
      then parse_request parts
      else ignored

  -- The rows of a file, in order.
  unfoldable pub parse_lines : List Bytes → List TenantRecord × List StoredRequest
  unfolding parse_parts split_tabs
  parse_lines [] = ([], [])
  parse_lines (line ∷ lines) = add_row (parse_parts (split_tabs line)) (parse_lines lines)

  unfoldable pub parse_file : Bytes → List TenantRecord × List StoredRequest
  unfolding parse_lines split_lines
  parse_file text = parse_lines (split_lines text)
