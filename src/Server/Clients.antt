-- ===== src/Server/Clients.antt =====
-- What a worker of `Server::run` does with a client.
use policy_driven_rate_limit.Prelude.{Bytes, List, Result, [], codes, ok, rejected, ◌∷◌}
use policy_driven_rate_limit.Controller.{HttpRequest, HttpResponse}
use policy_driven_rate_limit.Controller.Handlers.{error_response}
use policy_driven_rate_limit.Server.{parse_http_request, serialize_http_response}
use policy_driven_rate_limit.Server.Reading.{Checked, refused, passed, read_request}

-- `if (error.empty()) error = "malformed HTTP request";`, with the status that is set.
abbrev pub error_or_malformed : Bytes → Bytes
error_or_malformed [] = codes "malformed HTTP request"
error_or_malformed (c ∷ error) = c ∷ error

module _ {A : Type 0} (handle_request : A → HttpRequest → A × HttpResponse) where
  abbrev pub answer_parsed : A → Result HttpRequest → A × HttpResponse
  answer_parsed controller (rejected error) =
      (controller, error_response 400 (error_or_malformed error))
  answer_parsed controller (ok request) = handle_request controller request

  abbrev pub answer_read : A → Checked Bytes → A × HttpResponse
  answer_read controller (refused status error) =
      (controller, error_response status (error_or_malformed error))
  answer_read controller (passed raw) = answer_parsed controller (parse_http_request raw)

  -- The response to a client, from the bytes that come, and the bytes that are sent.
  unfoldable pub process_client : A → List Bytes → A × Bytes
  process_client controller chunks =
      let (controller', response) = answer_read controller (read_request chunks) in
      (controller', serialize_http_response response)
