-- ===== src/Middleware.antt =====
-- app/api/middleware.py: the limit on the size of a request's body. What `receive` gives is the list
-- of the messages to come; a list that ends is a `receive` that waits.
pub mod Limit
use symmetrical_disco.Base.{
  ℕ, ◌+◌, Bool, true, false, not, Option, none, some, List, [], ◌∷◌, ◌++◌, ltb, if◌then◌else◌,
  length, any,
}

-- `http.request` with its body and `more_body`, or any other message.
pub data AsgiMessage : Type 0 where
  http_request : List ℕ → Bool → AsgiMessage
  other_message : AsgiMessage

-- How the loop ends: by the reply 413, or with what it has buffered and what is still to come, or it
-- waits.
pub data Buffering : Type 0 where
  too_large waiting : Buffering
  buffered : List AsgiMessage → List AsgiMessage → Buffering

abbrev pub buffer_one : AsgiMessage → Buffering → Buffering
buffer_one m too_large = too_large
buffer_one m waiting = waiting
buffer_one m (buffered ms rest) = buffered (m ∷ ms) rest

unfoldable pub buffer : ℕ → ℕ → List AsgiMessage → Buffering
buffer max total [] = waiting
buffer max total (other_message ∷ rest) = buffered (other_message ∷ []) rest
buffer max total (http_request body more ∷ rest) =
    let next = buffer max (total + length body) rest in
    if ltb max (total + length body)
    then too_large
    else if more
    then buffer_one (http_request body more) next
    else buffered (http_request body more ∷ []) rest

-- What the middleware does: the reply 413, or a call of the app with the messages that its `receive`
-- will give.
pub data Served : Type 0 where
  replied_413 waits : Served
  called : List AsgiMessage → Served

-- `replay_receive` empties the queue first.
abbrev pub replayed : Buffering → Served
replayed too_large = replied_413
replayed waiting = waits
replayed (buffered queue rest) = called (queue ++ rest)

abbrev pub exceeds : ℕ → Option ℕ → Bool
exceeds max none = false
exceeds max (some n) = ltb max n

-- `declared` are the content-length headers, in order; a value that `int` refuses, or a negative one,
-- is `none`.
unfoldable pub serve : ℕ → Bool → List (Option ℕ) → List AsgiMessage → Served
unfolding buffer
serve max is_http declared incoming =
    if not is_http
    then called incoming
    else if any (exceeds max) declared
    then replied_413
    else replayed (buffer max 0 incoming)
