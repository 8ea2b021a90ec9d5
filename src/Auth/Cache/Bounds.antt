-- ===== src/Auth/Cache/Bounds.antt =====
-- The size of the token cache of app/auth/cache.py.
use symmetrical_disco.Base.{
  ℕ, suc, ◌+◌, ◌≤◌, ◌<◌, ◌≡◌, refl, ap, String, true, false, some, List, [], ◌∷◌, arith, ltb, leb,
  ◌==◌, keep, length, is_some, str_eq, Bool-cases, inl, inr,
}
use symmetrical_disco.Models.{Time}
use symmetrical_disco.Auth.Identity.{AuthedUser}
use symmetrical_disco.Auth.Cache.{TokenCache, Entry, lookup, assign, drop_oldest, evict, put}

abbrev pub IsBounded : TokenCache → Type 0
IsBounded c = length c.entries ≤ c.max

-- With room for one token, the eviction ends with room for another.
drop_oldest-some :
    (max : ℕ) (l : List (String × Entry))
    → 0 < max
    → (k : List (String × Entry)) × (drop_oldest max l ≡ some k) × (length k < max)
unfolding drop_oldest
drop_oldest-some max [] h = ([], ground arith, omega arith)
drop_oldest-some max (e ∷ l) h =
    let (k, d, b) = drop_oldest-some max l h in
    elim (Bool-cases (leb max (length (e ∷ l)))) [
      | inl full ↦ (k, rw full d, b)
      | inr room ↦ (e ∷ l, rw room refl, ground arith)
    ]

length-assign_new :
    (h : String) (e : Entry) (l : List (String × Entry)) → length (assign h e l) ≤ suc (length l)
length-assign_new h e [] = omega arith
length-assign_new h e ((k, f) ∷ l) = ground (arith, length-assign_new h e l)

length-assign_known :
    (h : String) (e : Entry) (l : List (String × Entry))
    → is_some (lookup h l) ≡ true
    → length (assign h e l) ≡ length l
length-assign_known h e [] known = cc
length-assign_known h e ((k, f) ∷ l) known = elim (Bool-cases (str_eq k h)) [
  | inl same ↦ rw same refl
  | inr other ↦ rw other (ap suc (length-assign_known h e l (rw other at known)))
]

-- What is stored into, and that it has room for the key.
pub put-some :
    (evicted_at now : Time) (h : String) (user : AuthedUser) (c : TokenCache)
    → 0 < c.max
    → length c.entries ≤ c.max
    → (c.ttl == 0) ≡ false
    → (l : List (String × Entry)) × (put evicted_at now h user c
        ≡ some (record c { entries = assign h (now + c.ttl, user) l }))
      × (length (assign h (now + c.ttl, user) l) ≤ c.max)
unfolding put evict
put-some evicted_at now h user c room b lasting = elim (Bool-cases (is_some (lookup h c.entries))) [
  | inl known ↦ (
    c.entries,
    simp (lasting, known),
    rw (length-assign_known h (now + c.ttl, user) c.entries known) b,
  )
  | inr fresh ↦ elim (Bool-cases (leb c.max (length c.entries))) [
    | inl full ↦
        let (l, e, s) =
          drop_oldest-some c.max (keep (λ (e : String × Entry). ltb evicted_at e.1.0) c.entries)
            room in
        (
          l,
          simp (lasting, fresh, full, e),
          omega (arith, length-assign_new h (now + c.ttl, user) l),
        )
    | inr free ↦ (
      c.entries,
      simp (lasting, fresh, free),
      ground (arith, length-assign_new h (now + c.ttl, user) c.entries),
    )
  ]
]

put-idle :
    (evicted_at now : Time) (h : String) (user : AuthedUser) (c : TokenCache)
    → (c.ttl == 0) ≡ true
    → put evicted_at now h user c ≡ some c
unfolding put
put-idle evicted_at now h user c idle = simp idle

-- A cache with room for one token at least: storing a token always succeeds, and the cache stays
-- within its bound.
pub put-IsBounded :
    (evicted_at now : Time) (h : String) (user : AuthedUser) (c : TokenCache)
    → 0 < c.max
    → IsBounded c
    → (d : TokenCache) × (put evicted_at now h user c ≡ some d) × (d.max ≡ c.max) × IsBounded d
put-IsBounded evicted_at now h user c room b = elim (Bool-cases (c.ttl == 0)) [
  | inl none_kept ↦ (c, put-idle evicted_at now h user c none_kept, refl, b)
  | inr lasting ↦
      let (l, e, s) = put-some evicted_at now h user c room b lasting in
      (record c { entries = assign h (now + c.ttl, user) l }, e, refl, s)
]
