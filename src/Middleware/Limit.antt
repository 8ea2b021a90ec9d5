-- ===== src/Middleware/Limit.antt =====
-- The middleware of app/api/middleware.py against the size of the body.
use symmetrical_disco.Base.{
  ℕ, ◌+◌, ◌≤◌, ◌≡◌, refl, ap, ◌∙◌, Bool, true, false, Option, List, [], ◌∷◌, ltb, leb,
  if◌then◌else◌, length, any, arith, Bool-cases, inl, inr,
}
use symmetrical_disco.Middleware.{
  AsgiMessage, http_request, other_message, Buffering, too_large, waiting, buffered, buffer_one,
  buffer, Served, replied_413, waits, called, replayed, exceeds, serve,
}

-- The number of bytes of the body, as far as it has been sent.
unfoldable pub body_size : List AsgiMessage → ℕ
body_size [] = 0
body_size (other_message ∷ rest) = 0
body_size (http_request body true ∷ rest) = length body + body_size rest
body_size (http_request body false ∷ rest) = length body

-- Whether the messages hold the end of the request.
unfoldable pub is_complete : List AsgiMessage → Bool
is_complete [] = false
is_complete (other_message ∷ rest) = true
is_complete (http_request body true ∷ rest) = is_complete rest
is_complete (http_request body false ∷ rest) = true

-- What is served when the size is the only question.
abbrev pub by_size : ℕ → ℕ → List AsgiMessage → Served
by_size max total incoming =
    if leb (total + body_size incoming) max
    then (if is_complete incoming then called incoming else waits)
    else replied_413

abbrev also : AsgiMessage → Served → Served
also m (called l) = called (m ∷ l)
also m replied_413 = replied_413
also m waits = waits

replayed-buffer_one :
    (m : AsgiMessage) (b : Buffering) → replayed (buffer_one m b) ≡ also m (replayed b)
replayed-buffer_one m too_large = refl
replayed-buffer_one m waiting = refl
replayed-buffer_one m (buffered queue rest) = refl

also-by_size :
    (max total : ℕ) (body : List ℕ) (rest : List AsgiMessage)
    → also (http_request body true) (by_size max (total + length body) rest)
      ≡ by_size max total (http_request body true ∷ rest)
unfolding body_size is_complete
also-by_size max total body rest =
    elim (Bool-cases (leb (total + (length body + body_size rest)) max)) [
      | inl fits ↦
          let same : leb (total + length body + body_size rest) max ≡ true = ground arith in
          elim (Bool-cases (is_complete rest)) [
            | inl done ↦ simp (fits, same, done)
            | inr more ↦ simp (fits, same, more)
          ]
      | inr over ↦
          let same : leb (total + length body + body_size rest) max ≡ false = ground arith in
          simp (over, same)
    ]

buffer-by_size :
    (max total : ℕ) (incoming : List AsgiMessage)
    → total ≤ max
    → replayed (buffer max total incoming) ≡ by_size max total incoming
unfolding buffer body_size is_complete
buffer-by_size max total [] h = ground arith
buffer-by_size max total (other_message ∷ rest) h = ground arith
buffer-by_size max total (http_request body false ∷ rest) h = ground arith
buffer-by_size max total (http_request body true ∷ rest) h =
    elim (Bool-cases (ltb max (total + length body))) [
      | inl over ↦
          let too : leb (total + (length body + body_size rest)) max ≡ false = ground arith in
          simp (over, too)
      | inr room ↦ rw room (
          replayed-buffer_one (http_request body true) (buffer max (total + length body) rest)
          ∙ ap (also (http_request body true))
              (buffer-by_size max (total + length body) rest (ground arith))
          ∙ also-by_size max total body rest)
    ]

-- An HTTP request that declares no length over the limit is served by the size of what it sends: a
-- body over the limit is answered 413, as soon as it is over, and the app is not called; of a body
-- within the limit, once it is complete, the app receives every message in order, and until then the
-- middleware waits.
pub serve-by_size :
    (max : ℕ) (declared : List (Option ℕ)) (incoming : List AsgiMessage)
    → any (exceeds max) declared ≡ false
    → serve max true declared incoming ≡ by_size max 0 incoming
unfolding serve
serve-by_size max declared incoming h = rw h (buffer-by_size max 0 incoming (omega arith))
