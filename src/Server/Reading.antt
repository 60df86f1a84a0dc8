-- ===== src/Server/Reading.antt =====
-- `parseExpectedBody` and `readRequest` of api/Server.cpp.
use policy_driven_rate_limit.Prelude.{
  Bool, Bytes, List, Option, [], codes, equal, if◌then◌else◌, is_digit, is_some, leb, length, ltb,
  min, none, not, number_from, some, true, ℕ, ◌&&◌, ◌++◌, ◌-◌, ◌==◌, ◌^◌, ◌||◌, ◌∷◌,
}
use policy_driven_rate_limit.Database.Rows.{split_lines}
use policy_driven_rate_limit.Server.{header_field, split_headers}

-- Whether a step goes on, or ends with an error and a status.
pub data Checked {ℓ} (A : Type ℓ) : Type ℓ where
  refused : ℕ → Bytes → Checked A
  passed : A → Checked A

abbrev pub and_then {ℓ κ} : {A : Type ℓ} {B : Type κ} → Checked A → (A → Checked B) → Checked B
and_then (refused status error) next = refused status error
and_then (passed x) next = next x

abbrev pub all_digits : Bytes → Bool
all_digits [] = true
all_digits (c ∷ cs) = is_digit c && all_digits cs

-- `strtoull` on digits stops at the largest number.
abbrev pub strtoull : Bytes → ℕ
strtoull s = min (number_from 0 s) (2 ^ 64 - 1)

abbrev pub max_body : ℕ
max_body = 1048576

abbrev pub max_header_bytes : ℕ
max_header_bytes = 16384

-- The field `content-length`; `known` is the length that was seen before, if one was.
unfoldable pub read_length : Option ℕ → Bytes → Checked (Option ℕ)
unfolding number_from
read_length known value =
    if is_some known || equal value [] || not (all_digits value)
    then refused 400 (codes "invalid content-length")
    else if ltb max_body (strtoull value)
    then refused 413 (codes "request body exceeds 1 MiB")
    else passed (some (strtoull value))

-- A line of the headers, behind those that gave `known`.
unfoldable pub read_field : Option ℕ → Option (Bytes × Bytes) → Checked (Option ℕ)
unfolding read_length
read_field known none = refused 400 (codes "malformed HTTP header")
read_field known (some (name, value)) =
    if equal name (codes "transfer-encoding")
    then refused 400 (codes "transfer-encoding is not supported")
    else if equal name (codes "content-length")
    then read_length known value
    else passed known

unfoldable pub read_fields : Option ℕ → List Bytes → Checked (Option ℕ)
unfolding read_field header_field
read_fields known [] = passed known
read_fields known (line ∷ lines) =
    and_then (read_field known (header_field line)) λ more. read_fields more lines

-- The lines behind the first.
abbrev pub behind_first : List Bytes → List Bytes
behind_first [] = []
behind_first (line ∷ lines) = lines

-- Without a length the body is empty.
abbrev pub length_or_none : Option ℕ → ℕ
length_or_none none = 0
length_or_none (some n) = n

unfoldable pub parse_expected_body : Bytes → Checked ℕ
unfolding read_fields split_lines
parse_expected_body headers =
    and_then (read_fields none (behind_first (split_lines headers)))
      λ known. passed (length_or_none known)

-- Behind an `append`: the loop goes on with what is known of the body's length, or ends.
pub data Progress : Type 0 where
  goes_on : Option ℕ → Progress
  complete : Progress
  stopped : ℕ → Bytes → Progress

-- The tests behind `expectedBody >= 0`; `rest` is what stands behind the headers.
unfoldable pub check_body : ℕ → Bytes → Progress
check_body expected_body rest =
    if expected_body == 0 && ltb 0 (length rest)
    then stopped 400 (codes "request body requires content-length")
    else if leb expected_body (length rest)
    then complete
    else goes_on (some expected_body)

-- The headers are there for the first time.
unfoldable pub check_headers : Bytes → Bytes → Checked ℕ → Progress
unfolding check_body
check_headers head rest (refused status error) = stopped status error
check_headers head rest (passed expected_body) = check_body expected_body rest

unfoldable pub after_append : Bytes → Option ℕ → Option (Bytes × Bytes) → Progress
unfolding check_headers parse_expected_body
after_append raw expected none =
    if ltb max_header_bytes (length raw)
    then stopped 431 (codes "request headers exceed 16 KiB")
    else goes_on expected
after_append raw (some expected_body) (some (head, rest)) = check_body expected_body rest
after_append raw none (some (head, rest)) =
    if ltb max_header_bytes (length head)
    then stopped 431 (codes "request headers exceed 16 KiB")
    else check_headers head rest (parse_expected_body head)

abbrev pub proceed : Progress → Bytes → (Option ℕ → Checked Bytes) → Checked Bytes
proceed (goes_on known) raw next = next known
proceed complete raw next = passed raw
proceed (stopped status error) raw next = refused status error

-- The loop over `recv`, whose bytes are given one call after the other: no bytes, as behind the last
-- call, are a connection that is closed, or a time that is out.
unfoldable pub read_from : Bytes → Option ℕ → List Bytes → Checked Bytes
unfolding after_append split_headers
read_from raw expected [] = refused 408 (codes "request timed out or connection closed")
read_from raw expected ([] ∷ chunks) = refused 408 (codes "request timed out or connection closed")
read_from raw expected ((c ∷ cs) ∷ chunks) =
    let more = raw ++ (c ∷ cs) in
    proceed (after_append more expected (split_headers more)) more
      λ known. read_from more known chunks

unfoldable pub read_request : List Bytes → Checked Bytes
unfolding read_from
read_request chunks = read_from [] none chunks
