-- ===== src/Server.antt =====
-- api/Server.cpp: the reading of a request from a connection, its parsing, the answer, and the queue
-- of connections. The bytes that successive calls of `recv` give are an argument.
pub mod Reading
pub mod Framing
pub mod Queue
pub mod Clients
use policy_driven_rate_limit.Prelude.{
  Bool, Bytes, List, Option, Result, [], codes, decimal, drop, equal, false, if◌then◌else◌,
  insert_sorted, is_some, length, lookup, none, ok, rejected, reverse, some, ℕ, ◌&&◌, ◌++◌, ◌==◌,
  ◌>>=◌, ◌||◌, ◌∷◌,
}
use policy_driven_rate_limit.Database.Rows.{split_lines}
use policy_driven_rate_limit.Loader.Lines.{is_space, skip_spaces, split_colon}
use policy_driven_rate_limit.Controller.{HttpRequest, HttpResponse, json, lowered}
use policy_driven_rate_limit.Controller.Handlers.{error_response}

abbrev pub status_text : ℕ → Bytes
status_text status =
    if status == 200
    then codes "OK"
    else if status == 201
    then codes "Created"
    else if status == 400
    then codes "Bad Request"
    else if status == 401
    then codes "Unauthorized"
    else if status == 403
    then codes "Forbidden"
    else if status == 408
    then codes "Request Timeout"
    else if status == 413
    then codes "Payload Too Large"
    else if status == 415
    then codes "Unsupported Media Type"
    else if status == 404
    then codes "Not Found"
    else if status == 405
    then codes "Method Not Allowed"
    else if status == 431
    then codes "Request Header Fields Too Large"
    else if status == 500
    then codes "Internal Server Error"
    else if status == 503
    then codes "Service Unavailable"
    else codes "OK"

unfoldable pub trim : Bytes → Bytes
unfolding skip_spaces
trim s = reverse (skip_spaces (reverse (skip_spaces s)))

abbrev pub crlf : Bytes
crlf = 13 ∷ 10 ∷ []

-- Whether a text starts with an empty line behind the end of a line.
abbrev pub ends_headers : Bytes → Bool
ends_headers (a ∷ b ∷ c ∷ d ∷ rest) = a == 13 && b == 10 && c == 13 && d == 10
ends_headers _ = false

abbrev pub put_in_front : ℕ → Option (Bytes × Bytes) → Option (Bytes × Bytes)
put_in_front c none = none
put_in_front c (some (head, rest)) = some (c ∷ head, rest)

-- The text in front of the first "\r\n\r\n" and the text behind it; none where there is none.
unfoldable pub split_headers : Bytes → Option (Bytes × Bytes)
split_headers [] = none
split_headers (c ∷ cs) =
    let later = split_headers cs in
    if ends_headers (c ∷ cs) then some ([], drop 3 cs) else put_in_front c later

-- `if (!line.empty() && line.back() == '\r') line.pop_back();`
unfoldable pub pop_return : Bytes → Bytes
pop_return [] = []
pop_return (c ∷ []) = if c == 13 then [] else c ∷ []
pop_return (c ∷ d ∷ cs) = c ∷ pop_return (d ∷ cs)

-- The words that `>>` reads, one after the other: what stands of the word that is read so far.
unfoldable pub words_from : Bytes → Bytes → List Bytes
unfolding is_space
words_from [] [] = []
words_from (x ∷ word) [] = (x ∷ word) ∷ []
words_from [] (c ∷ cs) = if is_space c then words_from [] cs else words_from (c ∷ []) cs
words_from (x ∷ word) (c ∷ cs) =
    if is_space c then (x ∷ word) ∷ words_from [] cs else words_from ((x ∷ word) ++ (c ∷ [])) cs

-- `request.path.resize(query)`.
unfoldable pub without_query : Bytes → Bytes
without_query [] = []
without_query (c ∷ cs) = if c == b'?' then [] else c ∷ without_query cs

-- The method and the path, from the words of the first line. A call that returns false sets no error.
unfoldable pub request_line : List Bytes → Result (Bytes × Bytes)
request_line (method ∷ path ∷ version ∷ []) =
    if equal version (codes "HTTP/1.1") || equal version (codes "HTTP/1.0")
    then ok (method, without_query path)
    else rejected []
request_line _ = rejected []

-- The lowered name and the value of a header; none where the line has no colon.
unfoldable pub header_field : Bytes → Option (Bytes × Bytes)
unfolding split_colon trim lowered
header_field line = elim (split_colon (pop_return line)) [
  | none ↦ none
  | some (name, value) ↦ some (lowered (trim name), trim value)
]

-- `key.empty() || request.headers.count(key) > 0`, and `request.headers[key] = value`.
abbrev pub add_header :
    List (Bytes × Bytes) → Option (Bytes × Bytes) → Result (List (Bytes × Bytes))
add_header headers none = rejected []
add_header headers (some (name, value)) =
    if equal name [] || is_some (lookup name headers)
    then rejected []
    else ok (insert_sorted name value headers)

-- The loop over the lines of the headers.
unfoldable pub parse_headers : List (Bytes × Bytes) → List Bytes → Result (List (Bytes × Bytes))
unfolding header_field
parse_headers headers [] = ok headers
parse_headers headers (line ∷ lines) =
    add_header headers (header_field line) >>= λ grown. parse_headers grown lines

unfoldable pub parse_lines : List Bytes → Bytes → Result HttpRequest
unfolding request_line parse_headers words_from pop_return
parse_lines [] body = rejected []
parse_lines (line ∷ lines) body =
    request_line (words_from [] (pop_return line)) >>= λ (method, path).
    parse_headers [] lines >>= λ headers.
    ok (record { method = method; path = path; headers = headers; body = body })

unfoldable pub parse_split : Option (Bytes × Bytes) → Result HttpRequest
unfolding parse_lines split_lines
parse_split none = rejected []
parse_split (some (head, body)) = parse_lines (split_lines head) body

unfoldable pub parse_http_request : Bytes → Result HttpRequest
unfolding parse_split split_headers
parse_http_request raw = parse_split (split_headers raw)

unfoldable pub header_lines : List (Bytes × Bytes) → Bytes
header_lines [] = []
header_lines ((name, value) ∷ headers) =
    name ++ (codes ": " ++ (value ++ (crlf ++ header_lines headers)))

unfoldable pub serialize_http_response : HttpResponse → Bytes
unfolding header_lines
serialize_http_response response =
    codes "HTTP/1.1 "
    ++ (decimal response.status
        ++ (b' '
            ∷ (status_text response.status
                ++ (crlf
                    ++ (header_lines response.headers
                        ++ (codes "Content-Length: "
                            ++ (decimal (length response.body)
                                ++ (crlf ++ (crlf ++ response.body)))))))))
