-- ===== src/Database/Reload.antt =====
-- A restart reads back what the store wrote.
use policy_driven_rate_limit.Prelude.{
  All, All-append, Bytes, IsLongLong, List, Option, [], ap, append-nil, append_assoc, arith, codes,
  decimal, decimal-IsDigits, equal, false, is_digit, length, negsuc, pos, refl, show_int, some,
  true, ℕ, ℤ, ◌++◌, ◌+◌, ◌<◌, ◌==◌, ◌∙◌, ◌∷◌, ◌≡◌, ◌≢◌,
}
use policy_driven_rate_limit.Database.Fields.{encode_field, encode_byte}
use policy_driven_rate_limit.Database.RoundTrip.{decode-encode, encode-IsInline, IsInline}
use policy_driven_rate_limit.Database.Rows.{
  TenantRecord, StoredRequest, Row, add_row, tenant_of, request_of, ignored, split_from, split_tabs,
  split_lines, tenant_row, request_row, tenant_rows, request_rows, render, stamped, parse_parts,
  parse_lines, parse_file,
}

-- No byte of the text is `stop`.
abbrev Lacks : ℕ → Bytes → Type 0
Lacks stop = All (λ c. (c == stop) ≡ false)

self_equal : (c : ℕ) → (c == c) ≡ true
self_equal c = ground arith

split_stop :
    (stop : ℕ) (part rest : Bytes)
    → split_from stop part (stop ∷ rest) ≡ part ∷ split_from stop [] rest
unfolding split_from
split_stop stop [] rest = rw (self_equal stop)
split_stop stop (x ∷ part) rest = rw (self_equal stop)

split_step :
    (stop c : ℕ) (part cs : Bytes)
    → (c == stop) ≡ false
    → split_from stop part (c ∷ cs) ≡ split_from stop (part ++ (c ∷ [])) cs
unfolding split_from
split_step stop c [] cs h = rw h
split_step stop c (x ∷ part) cs h = rw h

-- A piece that ends at a stop is cut off whole.
split_piece :
    (stop : ℕ) (part piece rest : Bytes)
    → Lacks stop piece
    → split_from stop part (piece ++ (stop ∷ rest)) ≡ (part ++ piece) ∷ split_from stop [] rest
split_piece stop part [] rest h = rw append-nil (split_stop stop part rest)
split_piece stop part (c ∷ piece) rest h =
    split_step stop c part _ h.0
    ∙ split_piece stop (part ++ (c ∷ [])) piece rest h.1
    ∙ rw append_assoc

-- The last piece is read to the end, if it is not empty.
split_last :
    (stop : ℕ) (part : Bytes) (c : ℕ) (piece : Bytes)
    → Lacks stop (c ∷ piece)
    → split_from stop part (c ∷ piece) ≡ (part ++ (c ∷ piece)) ∷ []
split_last stop [] c [] h = split_step stop c [] [] h.0 ∙ unfold split_from in refl
split_last stop (x ∷ part) c [] h = split_step stop c (x ∷ part) [] h.0 ∙ unfold split_from in refl
split_last stop part c (e ∷ piece) h =
    split_step stop c part (e ∷ piece) h.0
    ∙ split_last stop (part ++ (c ∷ [])) e piece h.1
    ∙ rw append_assoc

-- Fields with tabs between them.
abbrev join_tabs : Bytes → List Bytes → Bytes
join_tabs x [] = x
join_tabs x (y ∷ ys) = x ++ (b'\t' ∷ join_tabs y ys)

abbrev last_of : Bytes → List Bytes → Bytes
last_of x [] = x
last_of x (y ∷ ys) = last_of y ys

tabs_of : (s : Bytes) → IsInline s → Lacks b'\t' s
tabs_of [] h = tt
tabs_of (c ∷ s) h = (h.0.0, tabs_of s h.1)

newlines_of : (s : Bytes) → IsInline s → Lacks b'\n' s
newlines_of [] h = tt
newlines_of (c ∷ s) h = (h.0.1, newlines_of s h.1)

-- Fields without tabs are found again, if the last is not empty.
split_tabs-join :
    (x : Bytes) (ys : List Bytes)
    → IsInline x
    → All IsInline ys
    → last_of x ys ≢ []
    → split_tabs (join_tabs x ys) ≡ x ∷ ys
unfolding split_tabs
split_tabs-join [] [] h k ne = absurd (ne refl)
split_tabs-join (c ∷ x) [] h k ne = split_last b'\t' [] c x (tabs_of (c ∷ x) h)
split_tabs-join x (y ∷ ys) h k ne =
    split_piece b'\t' [] x (join_tabs y ys) (tabs_of x h)
    ∙ ap (◌∷◌ x) (split_tabs-join y ys k.0 k.1 ne)

join_tabs-newlines :
    (x : Bytes) (ys : List Bytes) → IsInline x → All IsInline ys → Lacks b'\n' (join_tabs x ys)
join_tabs-newlines x [] h k = newlines_of x h
join_tabs-newlines x (y ∷ ys) h k =
    All-append (λ c. (c == b'\n') ≡ false) x _ (newlines_of x h)
      (refl, join_tabs-newlines y ys k.0 k.1)

digits-IsInline : (s : Bytes) → All (λ c. is_digit c ≡ true) s → IsInline s
digits-IsInline [] h = tt
digits-IsInline (c ∷ s) h = ((ground arith, ground arith), digits-IsInline s h.1)

show_int-IsInline : (n : ℤ) → IsInline (show_int n)
unfolding show_int
show_int-IsInline (pos n) = digits-IsInline (decimal n) (decimal-IsDigits n)
show_int-IsInline (negsuc n) =
    ((refl, refl), digits-IsInline (decimal (n + 1)) (decimal-IsDigits (n + 1)))

-- All texts of a record are bytes, and the last one in its row is not empty.
pub record IsTenant (t : TenantRecord) : Type 0 where
  pub id : All (λ c. c < 256) t.id
  pub name : All (λ c. c < 256) t.name
  pub algorithm : All (λ c. c < 256) t.algorithm
  pub params : All (λ c. c < 256) t.params
  pub params_ne : t.params ≢ []

pub record IsRequest (r : StoredRequest) : Type 0 where
  pub tenant_id : All (λ c. c < 256) r.tenant_id
  pub stamp : IsLongLong r.timestamp_ms
  pub result : All (λ c. c < 256) r.result
  pub algorithm : All (λ c. c < 256) r.algorithm
  pub state_snapshot : All (λ c. c < 256) r.state_snapshot
  pub snapshot_ne : r.state_snapshot ≢ []

encode-ne : (s : Bytes) → s ≢ [] → encode_field s ≢ []
unfolding encode_field encode_byte
encode-ne [] ne = absurd (ne refl)
encode-ne (c ∷ s) ne = ground arith

-- The fields of a row, behind its kind.
abbrev tenant_fields : TenantRecord → List Bytes
tenant_fields t =
    encode_field t.id ∷ encode_field t.name ∷ encode_field t.algorithm ∷ encode_field t.params ∷ []

abbrev request_fields : StoredRequest → List Bytes
request_fields r =
    encode_field r.tenant_id
    ∷ show_int r.timestamp_ms
    ∷ encode_field r.result
    ∷ encode_field r.algorithm
    ∷ encode_field r.state_snapshot
    ∷ []

tenant_row-join :
    (t : TenantRecord) (rest : Bytes)
    → tenant_row t ++ rest ≡ join_tabs (codes "TENANT") (tenant_fields t) ++ (b'\n' ∷ rest)
unfolding tenant_row
tenant_row-join t rest = simp append_assoc

request_row-join :
    (r : StoredRequest) (rest : Bytes)
    → request_row r ++ rest ≡ join_tabs (codes "REQUEST") (request_fields r) ++ (b'\n' ∷ rest)
unfolding request_row
request_row-join r rest = simp append_assoc

-- What the theorem takes of std::stoll: it reads back a long long that was printed, to its end.
abbrev pub Reads : (Bytes → Option (ℤ × ℕ)) → Type 0
Reads stoll = (n : ℤ) → IsLongLong n → stoll (show_int n) ≡ some (n, length (show_int n))

module _ (stoll : Bytes → Option (ℤ × ℕ)) (reads : Reads stoll) where
  parse_tenant_fields :
      (t : TenantRecord)
      → IsTenant t
      → parse_parts stoll (codes "TENANT" ∷ tenant_fields t) ≡ tenant_of t
  unfolding parse_parts equal
  parse_tenant_fields t v = rw (
    decode-encode t.id v.id,
    decode-encode t.name v.name,
    decode-encode t.algorithm v.algorithm,
    decode-encode t.params v.params,
  )

  parse_request_fields :
      (r : StoredRequest)
      → IsRequest r
      → parse_parts stoll (codes "REQUEST" ∷ request_fields r) ≡ request_of r
  unfolding parse_parts equal
  parse_request_fields r v = rw (
    reads r.timestamp_ms v.stamp,
    stamped,
    self_equal (length (show_int r.timestamp_ms)),
    decode-encode r.tenant_id v.tenant_id,
    decode-encode r.result v.result,
    decode-encode r.algorithm v.algorithm,
    decode-encode r.state_snapshot v.state_snapshot,
  )

  -- A line that is written is the first that is read.
  lines_of_row :
      (x : Bytes) (ys : List Bytes) (rest : Bytes)
      → IsInline x
      → All IsInline ys
      → split_lines (join_tabs x ys ++ (b'\n' ∷ rest)) ≡ join_tabs x ys ∷ split_lines rest
  unfolding split_lines
  lines_of_row x ys rest h k =
      split_piece b'\n' [] (join_tabs x ys) rest (join_tabs-newlines x ys h k)

  tenant-IsInline : (t : TenantRecord) → IsTenant t → All IsInline (tenant_fields t)
  tenant-IsInline t v = (
    encode-IsInline t.id v.id,
    (
      encode-IsInline t.name v.name,
      (encode-IsInline t.algorithm v.algorithm, (encode-IsInline t.params v.params, tt)),
    ),
  )

  request-IsInline : (r : StoredRequest) → IsRequest r → All IsInline (request_fields r)
  request-IsInline r v = (
    encode-IsInline r.tenant_id v.tenant_id,
    (
      show_int-IsInline r.timestamp_ms,
      (
        encode-IsInline r.result v.result,
        (
          encode-IsInline r.algorithm v.algorithm,
          (encode-IsInline r.state_snapshot v.state_snapshot, tt),
        ),
      ),
    ),
  )

  kind-IsInline : IsInline (codes "TENANT") × IsInline (codes "REQUEST")
  kind-IsInline = (ground arith, ground arith)

  parse_row :
      (x : Bytes) (ys : List Bytes) (text rest : Bytes) (row : Row)
      → text ≡ join_tabs x ys ++ (b'\n' ∷ rest)
      → IsInline x
      → All IsInline ys
      → last_of x ys ≢ []
      → parse_parts stoll (x ∷ ys) ≡ row
      → parse_file stoll text ≡ add_row row (parse_file stoll rest)
  unfolding parse_file parse_lines
  parse_row x ys text rest row e h k ne found =
      rw (e, lines_of_row x ys rest h k, split_tabs-join x ys h k ne, found)

  parse_tenant_row :
      (t : TenantRecord) (rest : Bytes)
      → IsTenant t
      → parse_file stoll (tenant_row t ++ rest)
        ≡ (t ∷ (parse_file stoll rest).0, (parse_file stoll rest).1)
  parse_tenant_row t rest v =
      parse_row (codes "TENANT") (tenant_fields t) (tenant_row t ++ rest) rest (tenant_of t)
        (tenant_row-join t rest) kind-IsInline.0 (tenant-IsInline t v)
        (encode-ne t.params v.params_ne) (parse_tenant_fields t v)

  parse_request_row :
      (r : StoredRequest) (rest : Bytes)
      → IsRequest r
      → parse_file stoll (request_row r ++ rest)
        ≡ ((parse_file stoll rest).0, r ∷ (parse_file stoll rest).1)
  parse_request_row r rest v =
      parse_row (codes "REQUEST") (request_fields r) (request_row r ++ rest) rest (request_of r)
        (request_row-join r rest) kind-IsInline.1 (request-IsInline r v)
        (encode-ne r.state_snapshot v.snapshot_ne) (parse_request_fields r v)

  parse_request_rows :
      (rs : List StoredRequest) → All IsRequest rs → parse_file stoll (request_rows rs) ≡ ([], rs)
  unfolding request_rows
  parse_request_rows [] v = unfold parse_file in refl
  parse_request_rows (r ∷ rs) v =
      parse_request_row r (request_rows rs) v.0 ∙ rw (parse_request_rows rs v.1)

  -- Given that stoll reads back what is printed of a long long: a file rendered from tenants and
  -- requests loads as the same tenants and the same requests in the same order, if all texts are
  -- bytes, the stamps are long longs, and the last field of each row (parameters, state) is not
  -- empty.
  pub parse_file-render :
      (ts : List TenantRecord) (rs : List StoredRequest)
      → All IsTenant ts
      → All IsRequest rs
      → parse_file stoll (render ts rs) ≡ (ts, rs)
  unfolding render tenant_rows
  parse_file-render [] rs v w = parse_request_rows rs w
  parse_file-render (t ∷ ts) rs v w =
      rw (append_assoc (tenant_row t) (tenant_rows ts) (request_rows rs)) (
        parse_tenant_row t (tenant_rows ts ++ request_rows rs) v.0
        ∙ rw (parse_file-render ts rs v.1 w))

-- A tab at the end adds no field: `getline` finds nothing behind it.
split_tabs-trailing :
    (x : Bytes) (ys : List Bytes)
    → IsInline x
    → All IsInline ys
    → split_tabs (join_tabs x ys ++ (b'\t' ∷ [])) ≡ x ∷ ys
unfolding split_tabs
split_tabs-trailing x [] h k = split_piece b'\t' [] x [] (tabs_of x h) ∙ unfold split_from in refl
split_tabs-trailing x (y ∷ ys) h k =
    rw append_assoc
      (split_piece b'\t' [] x _ (tabs_of x h) ∙ ap (◌∷◌ x) (split_tabs-trailing y ys k.0 k.1))

-- The row of a tenant whose parameters are empty ends with a tab.
abbrev short_fields : TenantRecord → List Bytes
short_fields t = encode_field t.id ∷ encode_field t.name ∷ encode_field t.algorithm ∷ []

short_row-join :
    (t : TenantRecord) (rest : Bytes)
    → t.params ≡ []
    → tenant_row t ++ rest
      ≡ (join_tabs (codes "TENANT") (short_fields t) ++ (b'\t' ∷ [])) ++ (b'\n' ∷ rest)
unfolding tenant_row
short_row-join t rest e = rw e (unfold encode_field in simp append_assoc)

module _ (stoll : Bytes → Option (ℤ × ℕ)) where
  parse_ignored :
      (line text rest : Bytes)
      → text ≡ line ++ (b'\n' ∷ rest)
      → Lacks b'\n' line
      → parse_parts stoll (split_tabs line) ≡ ignored
      → parse_file stoll text ≡ parse_file stoll rest
  unfolding parse_file parse_lines split_lines
  parse_ignored line text rest e lacks skip = rw (e, split_piece b'\n' [] line rest lacks, skip)

  -- For whatever stoll: a tenant row of bytes with empty parameters, at the start of a file, is
  -- passed over when the file is loaded, as if it were not there.
  pub parse_file_loses :
      (t : TenantRecord) (rest : Bytes)
      → All (λ c. c < 256) t.id
      → All (λ c. c < 256) t.name
      → All (λ c. c < 256) t.algorithm
      → t.params ≡ []
      → parse_file stoll (tenant_row t ++ rest) ≡ parse_file stoll rest
  parse_file_loses t rest id name algorithm e =
      let kind : IsInline (codes "TENANT") = ground arith in
      let inline : All IsInline (short_fields t) = (
        encode-IsInline t.id id,
        (encode-IsInline t.name name, (encode-IsInline t.algorithm algorithm, tt)),
      ) in
      let line = join_tabs (codes "TENANT") (short_fields t) ++ (b'\t' ∷ []) in
      parse_ignored line (tenant_row t ++ rest) rest (short_row-join t rest e)
        (All-append (λ c. (c == b'\n') ≡ false) (join_tabs (codes "TENANT") (short_fields t)) _
          (join_tabs-newlines (codes "TENANT") (short_fields t) kind inline) (refl, tt))
        (ap (parse_parts stoll) (split_tabs-trailing (codes "TENANT") (short_fields t) kind inline)
          ∙ unfold parse_parts equal in refl)
