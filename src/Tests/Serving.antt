-- ===== src/Tests/Serving.antt =====
-- The server: framing and the queue.
use policy_driven_rate_limit.Prelude.{
  Bytes, List, [], arith, codes, equal, insert_sorted, lookup, number_from, ok, refl, some, ℕ, ◌++◌,
  ◌∷◌, ◌≡◌,
}
use policy_driven_rate_limit.Database.Rows.{split_lines}
use policy_driven_rate_limit.Loader.Lines.{split_colon}
use policy_driven_rate_limit.Controller.{lowered}
use policy_driven_rate_limit.Server.{
  split_headers, header_field, parse_http_request, parse_split, parse_lines, parse_headers,
  request_line, words_from, pop_return, without_query, trim,
}
use policy_driven_rate_limit.Server.Reading.{
  passed, parse_expected_body, read_fields, read_field, read_length, read_request,
}
use policy_driven_rate_limit.Server.Framing.{read_request-whole}
use policy_driven_rate_limit.Server.Queue.{
  Pending, nobody, admit, take_front, Reaches, starting, accepting, taking, IsFair, Reaches-IsFair,
}

abbrev head : Bytes
head = codes "POST /x?y HTTP/1.1\r\nContent-Length: 2"

abbrev text : Bytes
text = head ++ codes "\r\n\r\nhi"

abbrev pieces : List Bytes
pieces = head ∷ codes "\r\n\r" ∷ codes "\nh" ∷ codes "i" ∷ []

text_splits : split_headers text ≡ some (head, codes "hi")
unfolding split_headers
text_splits = refl

head_frames : parse_expected_body head ≡ passed 2
unfolding parse_expected_body read_fields read_field read_length header_field split_lines
    split_colon lowered trim pop_return equal number_from
head_frames = refl

text_parses :
    parse_http_request text
    ≡ ok (record {
      method = codes "POST";
      path = codes "/x";
      headers = (codes "content-length", codes "2") ∷ [];
      body = codes "hi";
    })
unfolding parse_http_request split_headers parse_split parse_lines parse_headers request_line
    words_from without_query header_field split_lines split_colon lowered trim pop_return equal
    insert_sorted lookup
text_parses = refl

read_request-whole_example : read_request pieces ≡ passed text
read_request-whole_example =
    read_request-whole text head (codes "hi") text_splits head_frames (omega arith) pieces
      (omega arith, (omega arith, (omega arith, (omega arith, tt)))) refl

abbrev three_clients : Pending ℕ
three_clients =
    let one = admit 1 nobody 7 in let two = admit 1 one 8 in admit 1 (take_front two two.pending) 9

three_clients-Reaches : Reaches 1 three_clients
three_clients-Reaches = accepting 9 (taking (accepting 8 (accepting 7 starting)))

Reaches-IsFair_example : IsFair 1 three_clients
Reaches-IsFair_example = Reaches-IsFair 1 three_clients three_clients-Reaches

-- The second client found the queue full.
one_turned_away : three_clients.turned_away ≡ 8 ∷ []
unfolding admit take_front
one_turned_away = refl
