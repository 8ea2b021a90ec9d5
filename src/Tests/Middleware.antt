-- ===== src/Tests/Middleware.antt =====
-- The body limit at concrete messages.
use symmetrical_disco.Base.{◌≡◌, refl, true, false, none, some, List, [], ◌∷◌}
use symmetrical_disco.Middleware.{
  AsgiMessage, http_request, other_message, serve, buffer, replied_413, called,
}
use symmetrical_disco.Middleware.Limit.{by_size, serve-by_size}

abbrev two_chunks : List AsgiMessage
two_chunks = http_request (1 ∷ 2 ∷ []) true ∷ http_request (3 ∷ []) false ∷ other_message ∷ []

serve_within : serve 3 true [] two_chunks ≡ called two_chunks
unfolding serve buffer
serve_within = refl

serve_over : serve 2 true [] two_chunks ≡ replied_413
unfolding serve buffer
serve_over = refl

serve_declared : serve 5 true (some 6 ∷ []) two_chunks ≡ replied_413
unfolding serve buffer
serve_declared = refl

serve-by_size_example : serve 2 true (some 2 ∷ none ∷ []) two_chunks ≡ by_size 2 0 two_chunks
serve-by_size_example = serve-by_size 2 (some 2 ∷ none ∷ []) two_chunks refl
