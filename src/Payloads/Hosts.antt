-- ===== src/Payloads/Hosts.antt =====
-- Which hosts an allowlist of app/schemas/payloads.py allows.
use symmetrical_disco.Base.{
  ◌≡◌, ◌↔◌, inl, inr, refl, ap, Bool, true, false, ◌||◌, List, [], ◌∷◌, ◌++◌, any, Bool-cases,
  arith,
}
use symmetrical_disco.Payloads.{
  Text, lower, same_text, strip, strip_right, ends_with, host_matches, host_allowed,
}

-- The host is the entry, or lies in its domain: labels, a dot and the entry.
pub data Covers (entry host : Text) : Type 0 where
  itself : host ≡ entry → Covers entry host
  subdomain : (labels : Text) → host ≡ labels ++ b'.' ∷ entry → Covers entry host

same_text_sound : (a b : Text) → same_text a b ≡ true → a ≡ b
same_text_sound [] [] h = refl
same_text_sound [] (d ∷ b) h = cc
same_text_sound (c ∷ a) [] h = cc
same_text_sound (c ∷ a) (d ∷ b) h = ground (arith, same_text_sound a b)

same_text_refl : (a : Text) → same_text a a ≡ true
same_text_refl [] = refl
same_text_refl (c ∷ a) = ground (arith, same_text_refl a)

ends_with_sound : (s t : Text) → ends_with s t ≡ true → (p : Text) × (t ≡ p ++ s)
unfolding ends_with
ends_with_sound s [] h = ([], same_text_sound [] s h)
ends_with_sound s (c ∷ t) h = elim (Bool-cases (same_text (c ∷ t) s)) [
  | inl same ↦ ([], same_text_sound (c ∷ t) s same)
  | inr longer ↦ let (p, e) = ends_with_sound s t (rw longer at h) in (c ∷ p, ap (λ l. c ∷ l) e)
]

ends_with-append : (s p : Text) → ends_with s (p ++ s) ≡ true
unfolding ends_with
ends_with-append [] [] = refl
ends_with-append (d ∷ s) [] = rw (same_text_refl (d ∷ s)) refl
ends_with-append s (c ∷ p) = elim (Bool-cases (same_text (c ∷ p ++ s) s)) [
  | inl same ↦ rw same refl
  | inr longer ↦ rw (longer, ends_with-append s p) refl
]

or_true : (b : Bool) {d : Bool} → d ≡ true → (b || d) ≡ true
or_true true h = refl
or_true false h = h

host_matches-Covers :
    (host entry : Text) → host_matches host entry ≡ true ↔ Covers (strip (lower entry)) host
unfolding host_matches
host_matches-Covers host entry = (matched, covered)
  where
    matched : host_matches host entry ≡ true → Covers (strip (lower entry)) host
    matched h = elim (Bool-cases (same_text host (strip (lower entry)))) [
      | inl same ↦ itself (same_text_sound host (strip (lower entry)) same)
      | inr other ↦
          let (p, e) = ends_with_sound (b'.' ∷ strip (lower entry)) host (rw other at h) in
          subdomain p e
    ]

    covered : Covers (strip (lower entry)) host → host_matches host entry ≡ true
    covered (itself e) =
        let same : same_text host (strip (lower entry)) ≡ true =
          rw e (same_text_refl (strip (lower entry))) in
        rw same refl
    covered (subdomain p e) =
        let inside : ends_with (b'.' ∷ strip (lower entry)) host ≡ true =
          rw e (ends_with-append (b'.' ∷ strip (lower entry)) p) in
        or_true (same_text host (strip (lower entry))) inside

-- An entry of the list, in lower case and without dots around it, covers the host.
pub data Allows (host : Text) : List Text → Type 0 where
  here :
      {entry : Text} {l : List Text} → Covers (strip (lower entry)) host → Allows host (entry ∷ l)
  there : {entry : Text} {l : List Text} → Allows host l → Allows host (entry ∷ l)

any-Allows : (host : Text) (l : List Text) → any (host_matches host) l ≡ true ↔ Allows host l
any-Allows host l = (found l, allowed l)
  where
    found : (l : List Text) → any (host_matches host) l ≡ true → Allows host l
    found [] h = cc
    found (x ∷ l) h = elim (Bool-cases (host_matches host x)) [
      | inl e ↦ here ((host_matches-Covers host x).0 e)
      | inr e ↦ there (found l (rw e at h))
    ]

    allowed : (l : List Text) → Allows host l → any (host_matches host) l ≡ true
    allowed [] a = elim a [ ]
    allowed (x ∷ l) (here c) = rw ((host_matches-Covers host x).1 c) refl
    allowed (x ∷ l) (there a) = or_true (host_matches host x) (allowed l a)

-- A host is allowed exactly if, in lower case and without dots behind it, it is an entry of the
-- allowlist or lies in the domain of one: a name that merely ends in the letters of an entry is not.
pub host_allowed-Allows :
    (host : Text) (l : List Text) → host_allowed host l ≡ true ↔ Allows (strip_right (lower host)) l
unfolding host_allowed
host_allowed-Allows host l = any-Allows (strip_right (lower host)) l
