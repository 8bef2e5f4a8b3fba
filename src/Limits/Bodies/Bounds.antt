-- ===== src/Limits/Bodies/Bounds.antt =====
-- What the body middlewares of src/toxicjoin/api/limits.py let through.
use toxicjoin.Prelude.{
  all, contains, ◌&&◌, String_eq, ℕ, ◌+◌, ◌≤◌, ◌≡◌, refl, ap, sym, ◌∙◌, Bool, true, false, not,
  List, [], ◌∷◌, ◌++◌, arith, ltb, length, Option, none, some, Bool-cases, inl, inr, if◌then◌else◌,
}
use native.Mathlib.Nat.{add-zero, zero-add, add_assoc}
use mathlib.Core.List.{append_assoc, append-nil}
use toxicjoin.Limits.Bodies.{
  content_length, exceeds, Scope, Message, request, disconnect, other, RequestOutcome,
  passed_through, too_large, forwarded, Texts, buffer, limit_request, Sent, start, body, trailer,
  ResponseOutcome, size_exceeded, missing_start, released, capture, limit_response, is_api,
}

abbrev pub size_of : Message → ℕ
size_of (request b more) = length b
size_of disconnect = 0
size_of other = 0

-- The bytes of the request bodies among the messages.
unfoldable pub bytes_of : List Message → ℕ
bytes_of [] = 0
bytes_of (m ∷ ms) = size_of m + bytes_of ms

-- What `buffer` forwards is a front part of the messages that fits.
pub record IsFront (max_bytes total : ℕ) (buffered messages out : List Message) : Type 0 where
  pub front : List Message
  pub rest : List Message
  pub kept : out ≡ buffered ++ front
  pub whole : messages ≡ front ++ rest
  pub fits : total + bytes_of front ≤ max_bytes

forwarded-injective : (a b : List Message) → forwarded a ≡ forwarded b → a ≡ b
forwarded-injective a b e = cc

module _ (max_bytes : ℕ) where
  IsFront-cons :
      (total : ℕ) (m : Message) (buffered messages out : List Message)
      → IsFront max_bytes (total + size_of m) (buffered ++ m ∷ []) messages out
      → IsFront max_bytes total buffered (m ∷ messages) out
  unfolding bytes_of
  IsFront-cons total m buffered messages out f = record {
    front = m ∷ f.front;
    rest = f.rest;
    kept = f.kept ∙ append_assoc buffered (m ∷ []) f.front;
    whole = ap (◌∷◌ m) f.whole;
    fits = omega (arith, f.fits);
  }

  IsFront-last :
      (total : ℕ) (m : Message) (buffered messages out : List Message)
      → total + size_of m ≤ max_bytes
      → forwarded (buffered ++ m ∷ []) ≡ forwarded out
      → IsFront max_bytes total buffered (m ∷ messages) out
  unfolding bytes_of
  IsFront-last total m buffered messages out h e = record {
    front = m ∷ [];
    rest = messages;
    kept = sym (forwarded-injective _ _ e);
    whole = refl;
    fits = omega arith;
  }

  buffer_forwards :
      (total : ℕ) (buffered messages out : List Message)
      → total ≤ max_bytes
      → buffer max_bytes total buffered messages ≡ forwarded out
      → IsFront max_bytes total buffered messages out
  unfolding buffer
  buffer_forwards total buffered [] out h e = cc
  buffer_forwards total buffered (disconnect ∷ ms) out h e =
      IsFront-last total disconnect buffered ms out (omega arith) e
  buffer_forwards total buffered (other ∷ ms) out h e =
      IsFront-cons total other buffered ms out
        (rw add-zero (buffer_forwards total (buffered ++ other ∷ []) ms out h e))
  buffer_forwards total buffered (request b true ∷ ms) out h e =
      elim (Bool-cases (ltb max_bytes (total + length b))) [
        | inl over ↦ absurd (ground arith)
        | inr fits ↦ IsFront-cons total (request b true) buffered ms out (
            buffer_forwards (total + length b) (buffered ++ request b true ∷ []) ms out
              (ground arith) (rw fits at e))
      ]
  buffer_forwards total buffered (request b false ∷ ms) out h e =
      elim (Bool-cases (ltb max_bytes (total + length b))) [
        | inl over ↦ absurd (ground arith)
        | inr fits ↦
            IsFront-last total (request b false) buffered ms out (ground arith) (rw fits at e)
      ]

  past_gate :
      (a b : Bool) (x : RequestOutcome) (out : List Message)
      → (if not a then passed_through else if b then too_large else x) ≡ forwarded out
      → x ≡ forwarded out
  past_gate a b x out e = ground arith

  whole_of :
      (messages out : List Message)
      → IsFront max_bytes 0 [] messages out
      → (rest : List Message) × (messages ≡ out ++ rest) × (bytes_of out ≤ max_bytes)
  whole_of messages out f = (f.rest, rw f.kept f.whole, rw f.kept (omega (arith, f.fits)))

  -- Of a guarded request the application sees a front part of what the server delivered, byte for byte,
  -- and no more bytes than the limit.
  pub limit_request_forwards :
      (texts : Texts) (s : Scope) (messages out : List Message)
      → limit_request texts max_bytes s messages ≡ forwarded out
      → (rest : List Message) × (messages ≡ out ++ rest) × (bytes_of out ≤ max_bytes)
  unfolding limit_request
  limit_request_forwards texts s messages out e =
      whole_of messages out
        (buffer_forwards 0 [] messages out (omega arith) (past_gate _ _ _ out e))

-- The bytes of the response bodies.
pub response_bytes : List Sent → ℕ
response_bytes [] = 0
response_bytes (start code ∷ sent) = response_bytes sent
response_bytes (trailer ∷ sent) = response_bytes sent
response_bytes (body b ∷ sent) = length b + response_bytes sent

pub bodies_of : List Sent → List (List ℕ)
bodies_of [] = []
bodies_of (start code ∷ sent) = bodies_of sent
bodies_of (trailer ∷ sent) = bodies_of sent
bodies_of (body b ∷ sent) = b ∷ bodies_of sent

-- The status of the last start message.
pub status_of : Option ℕ → List Sent → Option ℕ
status_of status [] = status
status_of status (start code ∷ sent) = status_of (some code) sent
status_of status (trailer ∷ sent) = status_of status sent
status_of status (body b ∷ sent) = status_of status sent

abbrev pub finished : Option ℕ → List (List ℕ) → ResponseOutcome
finished none bodies = missing_start
finished (some status) bodies = released status bodies

capture_lem :
    (max_bytes : ℕ) (status : Option ℕ) (bodies : List (List ℕ)) (total : ℕ) (sent : List Sent)
    → total ≤ max_bytes
    → capture max_bytes status bodies total sent ≡ (
        if ltb max_bytes (total + response_bytes sent)
        then size_exceeded
        else finished (status_of status sent) (bodies ++ bodies_of sent))
unfolding capture response_bytes bodies_of status_of
capture_lem max_bytes none bodies total [] h = ground arith
capture_lem max_bytes (some status) bodies total [] h = rw append-nil (ground arith)
capture_lem max_bytes status bodies total (start code ∷ sent) h =
    capture_lem max_bytes (some code) bodies total sent h
capture_lem max_bytes status bodies total (trailer ∷ sent) h =
    capture_lem max_bytes status bodies total sent h
capture_lem max_bytes status bodies total (body b ∷ sent) h =
    elim (Bool-cases (ltb max_bytes (total + length b))) [
      | inl over ↦ rw over (ground arith)
      | inr fits ↦
          rw (fits, ← append_assoc bodies (b ∷ []) (bodies_of sent), ← add_assoc)
            (capture_lem max_bytes status (bodies ++ b ∷ []) (total + length b) sent (ground arith))
    ]

-- For an API path a response is refused exactly when its bodies together are longer than the
-- limit; otherwise the last start and all bodies, unchanged and in order, are released, or, where
-- the application sent no start, the error for that is raised.
pub limit_response_lem :
    (max_bytes : ℕ) (s : Scope) (sent : List Sent)
    → is_api s ≡ true
    → limit_response max_bytes s sent ≡ (
        if ltb max_bytes (response_bytes sent)
        then size_exceeded
        else finished (status_of none sent) (bodies_of sent))
unfolding limit_response
limit_response_lem max_bytes s sent api =
    rw (api, ← zero-add (response_bytes sent)) (capture_lem max_bytes none [] 0 sent (omega arith))

-- The server still has to deliver after the message.
unfoldable pub is_open : Message → Bool
is_open (request b more) = more
is_open disconnect = false
is_open other = true

buffer_fits :
    (max_bytes total : ℕ) (buffered front : List Message) (last : Message) (rest : List Message)
    → all is_open front ≡ true
    → is_open last ≡ false
    → total + bytes_of (front ++ last ∷ []) ≤ max_bytes
    → buffer max_bytes total buffered (front ++ last ∷ rest)
      ≡ forwarded (buffered ++ (front ++ last ∷ []))
unfolding buffer is_open bytes_of
buffer_fits max_bytes total buffered [] (request b true) rest o l h = absurd (ground arith)
buffer_fits max_bytes total buffered [] (request b false) rest o l h = ground arith
buffer_fits max_bytes total buffered [] disconnect rest o l h = refl
buffer_fits max_bytes total buffered [] other rest o l h = absurd (ground arith)
buffer_fits max_bytes total buffered (request b false ∷ front) last rest o l h =
    absurd (ground arith)
buffer_fits max_bytes total buffered (disconnect ∷ front) last rest o l h = absurd (ground arith)
buffer_fits max_bytes total buffered (other ∷ front) last rest o l h =
    buffer_fits max_bytes total (buffered ++ other ∷ []) front last rest o l (omega arith)
    ∙ ap forwarded (append_assoc buffered (other ∷ []) (front ++ last ∷ []))
buffer_fits max_bytes total buffered (request b true ∷ front) last rest o l h =
    let step =
      buffer_fits max_bytes (total + length b) (buffered ++ request b true ∷ []) front last rest o l
        (omega arith) in
    let fits : ltb max_bytes (total + length b) ≡ false = ground arith in
    rw fits (step ∙ ap forwarded (append_assoc buffered (request b true ∷ []) (front ++ last ∷ [])))

-- A guarded request whose declared length, if any, and whose bodies up to the last are within the limit
-- is forwarded with just the messages up to the last.
pub limit_request_fits :
    (texts : Texts) (max_bytes : ℕ) (s : Scope) (front : List Message) (last : Message)
    (rest : List Message)
    → (is_api s && contains (texts.upper s.method) ("POST" ∷ "PUT" ∷ "PATCH" ∷ [])) ≡ true
    → exceeds (content_length texts s.headers) max_bytes ≡ false
    → all is_open front ≡ true
    → is_open last ≡ false
    → bytes_of (front ++ last ∷ []) ≤ max_bytes
    → limit_request texts max_bytes s (front ++ last ∷ rest) ≡ forwarded (front ++ last ∷ [])
unfolding limit_request
limit_request_fits texts max_bytes s front last rest guarded declared open_ closed h =
    rw (guarded, declared) (buffer_fits max_bytes 0 [] front last rest open_ closed (omega arith))
