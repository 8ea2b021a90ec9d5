-- ===== src/Auth/Cache/Lookup.antt =====
-- What the token cache of app/auth/cache.py answers, and for how long.
use symmetrical_disco.Base.{
  ◌+◌, ◌≤◌, ◌<◌, ◌≡◌, refl, String, true, false, none, some, List, [], ◌∷◌, arith, leb, str_eq,
  eq_iff, Bool-cases, inl, inr,
}
use symmetrical_disco.Models.{Time}
use symmetrical_disco.Auth.Identity.{AuthedUser}
use symmetrical_disco.Auth.Cache.{TokenCache, Entry, lookup, assign, get, put}
use symmetrical_disco.Auth.Cache.Bounds.{IsBounded, put-some}

str_eq_refl : (h : String) → str_eq h h ≡ true
str_eq_refl h = (eq_iff h h).1 refl

lookup-assign :
    (h : String) (e : Entry) (l : List (String × Entry)) → lookup h (assign h e l) ≡ some e
lookup-assign h e [] = rw (str_eq_refl h) refl
lookup-assign h e ((k, f) ∷ l) = elim (Bool-cases (str_eq k h)) [
  | inl same ↦ simp same
  | inr other ↦ rw other (rw other (lookup-assign h e l))
]

-- A token that was stored at `now` is answered from the cache as long as its time has not run out,
-- and from then on it is not.
pub put-get :
    (evicted_at now : Time) (h : String) (user : AuthedUser) (c : TokenCache)
    → 0 < c.max
    → IsBounded c
    → 0 < c.ttl
    → (d : TokenCache) × (put evicted_at now h user c ≡ some d)
      × ((later : Time) → later < now + c.ttl → get later h d ≡ (some user, d))
      × ((later : Time) → now + c.ttl ≤ later → (get later h d).0 ≡ none)
unfolding get
put-get evicted_at now h user c room b lasting =
    let (l, e, _) = put-some evicted_at now h user c room b (ground arith) in
    let known = lookup-assign h (now + c.ttl, user) l in
    (
      record c { entries = assign h (now + c.ttl, user) l },
      e,
      λ later early.
          let kept : leb (now + c.ttl) later ≡ false = ground arith in simp (known, kept),
      λ later late. let over : leb (now + c.ttl) later ≡ true = ground arith in simp (known, over),
    )
