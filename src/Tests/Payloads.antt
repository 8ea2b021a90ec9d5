-- ===== src/Tests/Payloads.antt =====
-- Allowlists at concrete hosts: `ab.c` is the only entry.
use symmetrical_disco.Base.{◌≡◌, ◌↔◌, refl, true, false, [], ◌∷◌}
use symmetrical_disco.Payloads.{
  Text, lower, strip_right, strip_left, ends_with, host_matches, host_allowed,
}
use symmetrical_disco.Payloads.Hosts.{Allows, host_allowed-Allows}

abbrev entry : Text
entry = b'a' ∷ b'b' ∷ b'.' ∷ b'c' ∷ []

subdomain_allowed :
    host_allowed (b'x' ∷ b'.' ∷ b'A' ∷ b'b' ∷ b'.' ∷ b'c' ∷ b'.' ∷ []) (entry ∷ []) ≡ true
unfolding host_allowed host_matches lower strip_right strip_left ends_with
subdomain_allowed = refl

lookalike_refused : host_allowed (b'x' ∷ b'a' ∷ b'b' ∷ b'.' ∷ b'c' ∷ []) (entry ∷ []) ≡ false
unfolding host_allowed host_matches lower strip_right strip_left ends_with
lookalike_refused = refl

host_allowed-Allows_example :
    host_allowed (b'x' ∷ b'.' ∷ entry) (entry ∷ []) ≡ true
    ↔ Allows (strip_right (lower (b'x' ∷ b'.' ∷ entry))) (entry ∷ [])
host_allowed-Allows_example = host_allowed-Allows (b'x' ∷ b'.' ∷ entry) (entry ∷ [])
