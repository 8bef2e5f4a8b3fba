-- ===== src/Limits/Bodies.antt =====
-- The body middlewares of src/toxicjoin/api/limits.py. What the server delivers and what the wrapped
-- application sends are lists of messages; a body is its bytes.
pub mod Bounds
mod Tests
use text.Mathlib.Text.{starts_with}
use toxicjoin.Prelude.{
  ℕ, zero, suc, ◌+◌, String, String_eq, Bool, true, false, not, ◌&&◌, ◌||◌, List, [], ◌∷◌, ◌++◌,
  ltb, ◌==◌, length, contains, Option, none, some, ℤ, pos, negsuc, if◌then◌else◌,
}

pub record Scope : Type 0 where
  pub kind : String
  pub path : String
  pub method : String
  pub headers : List (String × String)

-- A message from the server; `more` is the flag `more_body`.
pub data Message : Type 0 where
  request : List ℕ → Bool → Message
  disconnect : Message
  other : Message

-- What becomes of a request.
pub data RequestOutcome : Type 0 where
  passed_through : RequestOutcome
  too_large : RequestOutcome
  forwarded : List Message → RequestOutcome
  waiting : List Message → RequestOutcome

abbrev pub is_api : Scope → Bool
is_api s = s.kind == "http" && starts_with s.path "/api/"

-- What the middleware takes from the language: `bytes.lower`, `str.upper`, and `int` of an ASCII text.
pub record Texts : Type 0 where
  pub lower : String → String
  pub upper : String → String
  pub to_int : String → Option ℤ

abbrev non_negative : Option ℤ → Option ℕ
non_negative none = none
non_negative (some (pos n)) = some n
non_negative (some (negsuc n)) = none

-- `_content_length`: the first header of that name decides.
pub content_length : Texts → List (String × String) → Option ℕ
content_length texts [] = none
content_length texts ((key, value) ∷ headers) =
    if texts.lower key == "content-length"
    then non_negative (texts.to_int value)
    else content_length texts headers

abbrev pub exceeds : Option ℕ → ℕ → Bool
exceeds none max_bytes = false
exceeds (some n) max_bytes = ltb max_bytes n

-- The `while True` loop; at the end of the list the next message is still awaited.
pub buffer : ℕ → ℕ → List Message → List Message → RequestOutcome
buffer max_bytes total buffered [] = waiting buffered
buffer max_bytes total buffered (disconnect ∷ messages) = forwarded (buffered ++ disconnect ∷ [])
buffer max_bytes total buffered (other ∷ messages) =
    buffer max_bytes total (buffered ++ other ∷ []) messages
buffer max_bytes total buffered (request body more ∷ messages) =
    let next =
      buffer max_bytes (total + length body) (buffered ++ request body more ∷ []) messages in
    if ltb max_bytes (total + length body)
    then too_large
    else if not more
    then forwarded (buffered ++ request body more ∷ [])
    else next

-- `RequestBodyLimitMiddleware.__call__`
pub limit_request : Texts → ℕ → Scope → List Message → RequestOutcome
limit_request texts max_bytes s messages =
    if not (is_api s && contains (texts.upper s.method) ("POST" ∷ "PUT" ∷ "PATCH" ∷ []))
    then passed_through
    else if exceeds (content_length texts s.headers) max_bytes
    then too_large
    else buffer max_bytes 0 [] messages

-- `replay_receive` at its n-th call.
pub replay_receive : List Message → ℕ → Message
replay_receive [] n = request [] false
replay_receive (m ∷ ms) zero = m
replay_receive (m ∷ ms) (suc n) = replay_receive ms n

-- A message that the application sends.
pub data Sent : Type 0 where
  start : ℕ → Sent
  body : List ℕ → Sent
  trailer : Sent

pub data ResponseOutcome : Type 0 where
  unchanged : List Sent → ResponseOutcome
  size_exceeded : ResponseOutcome
  missing_start : ResponseOutcome
  released : ℕ → List (List ℕ) → ResponseOutcome

-- `capture_send` over what the application sends, and the release at its end.
pub capture : ℕ → Option ℕ → List (List ℕ) → ℕ → List Sent → ResponseOutcome
capture max_bytes none bodies total [] = missing_start
capture max_bytes (some status) bodies total [] = released status bodies
capture max_bytes status bodies total (start code ∷ sent) =
    capture max_bytes (some code) bodies total sent
capture max_bytes status bodies total (trailer ∷ sent) = capture max_bytes status bodies total sent
capture max_bytes status bodies total (body bytes ∷ sent) =
    let next = capture max_bytes status (bodies ++ bytes ∷ []) (total + length bytes) sent in
    if ltb max_bytes (total + length bytes) then size_exceeded else next

-- `ResponseBodyLimitMiddleware.__call__`
pub limit_response : ℕ → Scope → List Sent → ResponseOutcome
limit_response max_bytes s sent =
    if not (is_api s) then unchanged sent else capture max_bytes none [] 0 sent
