-- ===== src/Limits/Bodies/Tests.antt =====
-- The body limits at concrete messages.
use toxicjoin.Prelude.{
  arith, ◌≡◌, ◌≤◌, refl, String_eq, true, false, none, List, [], ◌∷◌, ◌++◌, ltb, if◌then◌else◌,
}
use toxicjoin.Limits.Bodies.{
  forwarded, Scope, Message, request, disconnect, Texts, limit_request, buffer, content_length,
  Sent, start, body, size_exceeded, limit_response,
}
use toxicjoin.Limits.Bodies.Bounds.{
  is_open, limit_request_fits, bytes_of, response_bytes, bodies_of, status_of, finished,
  limit_request_forwards, limit_response_lem,
}

-- The texts of the example are in lower case and carry no length.
abbrev plain : Texts
plain = record { lower = λ s. s; upper = λ s. s; to_int = λ s. none }

abbrev post : Scope
post = record { kind = "http"; path = "/api/analyze"; method = "POST"; headers = [] }

abbrev delivered : List Message
delivered = request (1 ∷ 2 ∷ []) true ∷ request (3 ∷ []) false ∷ disconnect ∷ []

abbrev front_part : List Message
front_part = request (1 ∷ 2 ∷ []) true ∷ request (3 ∷ []) false ∷ []

limit_request_example :
    (rest : List Message) × (delivered ≡ front_part ++ rest) × (bytes_of front_part ≤ 3)
unfolding limit_request buffer content_length
limit_request_example = limit_request_forwards 3 plain post delivered front_part refl

abbrev sent : List Sent
sent = start 200 ∷ body (1 ∷ 2 ∷ []) ∷ body (3 ∷ []) ∷ []

limit_response_example : limit_response 2 post sent ≡ (
    if ltb 2 (response_bytes sent)
    then size_exceeded
    else finished (status_of none sent) (bodies_of sent))
limit_response_example = limit_response_lem 2 post sent refl

limit_request_fits_example : limit_request plain 3 post delivered ≡ forwarded front_part
unfolding is_open content_length bytes_of
limit_request_fits_example =
    limit_request_fits plain 3 post (request (1 ∷ 2 ∷ []) true ∷ []) (request (3 ∷ []) false)
      (disconnect ∷ []) refl refl refl refl (ground arith)
