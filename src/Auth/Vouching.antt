-- ===== src/Auth/Vouching.antt =====
-- Whom get_current_user of app/api/deps.py lets in.
use symmetrical_disco.Base.{
  ℕ, ◌+◌, ◌≡◌, refl, sym, String, Bool, true, ◌&&◌, not, Option, none, some, List, [], ◌∷◌, ltb,
  leb, ◌==◌, any, keep, length, is_some, str_eq, eq_iff, Bool-cases, Option-cases, inl, inr, All,
  AllSome,
}
use mathlib.Core.Path.{subst}
use symmetrical_disco.Models.{Time}
use symmetrical_disco.Auth.Identity.{AuthedUser}
use symmetrical_disco.Auth.Cache.{
  TokenCache, Entry, lookup, assign, stored, get, drop_oldest, evict, put,
}
use symmetrical_disco.Auth.{
  ReviewedUser, Review, unavailable, rejected, reviewed, review, AuthError, Authenticated, user_is,
  refused, Api, Surroundings, admit, remembered, consult, get_current_user,
}

-- The user that a review of a token accepted.
pub record Accepted (group : String) (e : Surroundings) (sa : Option String) (token : String)
    (user : AuthedUser) : Type 0 where
  pub answer : ReviewedUser
  pub accepted : (review e.post e.reread token sa).0 ≡ reviewed answer
  pub member : any (λ g. str_eq g group) answer.groups ≡ true
  pub uid : e.parse_uuid answer.uid ≡ some user.id
  pub name : answer.username ≡ user.name

All-keep : {A : Type 0} (P : A → Type 0) (p : A → Bool) (l : List A) → All P l → All P (keep p l)
All-keep P p [] h = tt
All-keep P p (x ∷ l) h = elim (Bool-cases (p x)) [
  | inl e ↦ rw e (h.0, All-keep P p l h.1)
  | inr e ↦ rw e (All-keep P p l h.1)
]

-- What holds of every entry of a cache, by its key and its user.
module _ (P : String → AuthedUser → Type 0) where
  abbrev OfEntry : String × Entry → Type 0
  OfEntry e = P e.0 e.1.1

  abbrev pub Holds : TokenCache → Type 0
  Holds c = All OfEntry c.entries

  All-assign :
      (h : String) (e : Entry) (l : List (String × Entry))
      → P h e.1
      → All OfEntry l
      → All OfEntry (assign h e l)
  All-assign h e [] p a = (p, tt)
  All-assign h e ((k, f) ∷ l) p a = elim (Bool-cases (str_eq k h)) [
    | inl same ↦ rw same (subst (λ (x : String). P x e.1) (sym ((eq_iff k h).0 same)) p, a.1)
    | inr other ↦ rw other (a.0, All-assign h e l p a.1)
  ]

  lookup-Holds :
      (h : String) (l : List (String × Entry)) {e : Entry}
      → All OfEntry l
      → lookup h l ≡ some e
      → P h e.1
  lookup-Holds h [] a found = cc
  lookup-Holds h ((k, f) ∷ l) {e} a found = elim (Bool-cases (str_eq k h)) [
    | inl same ↦
        let first : some f ≡ some e = rw same at found in
        let it : f ≡ e = cc in
        subst (λ (x : Entry). P h x.1) it
          (subst (λ (x : String). P x f.1) ((eq_iff k h).0 same) a.0)
    | inr other ↦ lookup-Holds h l a.1 (rw other at found)
  ]

  -- An answer, with the cache after it.
  abbrev Answers : String → Option AuthedUser × TokenCache → Type 0
  Answers h r = ((user : AuthedUser) → r.0 ≡ some user → P h user) × Holds r.1

  get-Holds : (now : Time) (h : String) (c : TokenCache) → Holds c → Answers h (get now h c)
  unfolding get
  get-Holds now h c a = elim (Option-cases (lookup h c.entries)) [
    | inl missing ↦ rw missing (λ user e. cc, a)
    | inr (f, known) ↦ elim (Bool-cases (leb f.0 now)) [
      | inl over ↦ rw (known, over) (λ user e. cc, All-keep OfEntry _ c.entries a)
      | inr kept ↦
          rw (known, kept)
            (
              λ user e.
                  let it : f.1 ≡ user = cc in subst (P h) it (lookup-Holds h c.entries a known),
              a,
            )
    ]
  ]

  drop_oldest-Holds :
      (max : ℕ) (l : List (String × Entry))
      → All OfEntry l
      → AllSome (All OfEntry) (drop_oldest max l)
  unfolding drop_oldest
  drop_oldest-Holds max [] a = elim (Bool-cases (leb max 0)) [ inl e ↦ rw e tt | inr e ↦ rw e tt ]
  drop_oldest-Holds max (x ∷ l) a = elim (Bool-cases (leb max (length (x ∷ l)))) [
    | inl full ↦ rw full (drop_oldest-Holds max l a.1)
    | inr room ↦ rw room a
  ]

  stored-Holds :
      (now : Time) (h : String) (user : AuthedUser) (c : TokenCache)
      (o : Option (List (String × Entry)))
      → P h user
      → AllSome (All OfEntry) o
      → AllSome Holds (stored now h user c o)
  stored-Holds now h user c none p a = tt
  stored-Holds now h user c (some l) p a = All-assign h (now + c.ttl, user) l p a

  put-Holds :
      (evicted_at now : Time) (h : String) (user : AuthedUser) (c : TokenCache)
      → P h user
      → Holds c
      → AllSome Holds (put evicted_at now h user c)
  unfolding put evict
  put-Holds evicted_at now h user c p a = elim (Bool-cases (c.ttl == 0)) [
    | inl idle ↦ rw idle a
    | inr lasting ↦ rw lasting (
        stored-Holds now h user c _ p
          (elim (Bool-cases (not (is_some (lookup h c.entries)) && leb c.max (length c.entries))) [
            | inl full ↦ rw full (
                drop_oldest-Holds c.max _
                  (All-keep OfEntry (λ x. ltb evicted_at x.1.0) c.entries a))
            | inr room ↦ rw room a
          ]))
  ]

  -- What a request leaves, for the key of its token.
  abbrev pub Admits : String → Authenticated × Api → Type 0
  Admits h r = ((user : AuthedUser) → r.0 ≡ user_is user → P h user) × Holds r.1.cache

  remembered-Admits :
      (h : String) (user : AuthedUser) (a : Api) (o : Option TokenCache)
      → P h user
      → Holds a.cache
      → AllSome Holds o
      → Admits h (remembered user a o)
  remembered-Admits h user a none p k o = (λ u e. cc, k)
  remembered-Admits h user a (some d) p k o = (λ u e. let it : user ≡ u = cc in subst (P h) it p, o)

  refused-Admits : (h : String) (x : AuthError) (a : Api) → Holds a.cache → Admits h (refused x, a)
  refused-Admits h x a k = (λ u e. cc, k)

  module _ (group : String) (e : Surroundings) (token : String) where
    admit-Admits :
        (sa : Option String) (r : Review) (a : Api)
        → (review e.post e.reread token sa).0 ≡ r
        → ((user : AuthedUser) → Accepted group e sa token user → P (e.hash_token token) user)
        → Holds a.cache
        → Admits (e.hash_token token) (admit group e token r a)
    unfolding admit
    admit-Admits sa unavailable a q vouch k = (λ u e. cc, k)
    admit-Admits sa rejected a q vouch k = (λ u e. cc, k)
    admit-Admits sa (reviewed u) a q vouch k =
        elim (Bool-cases (any (λ g. str_eq g group) u.groups)) [
          | inr out ↦ rw out (λ v e. cc, k)
          | inl member ↦ elim (Option-cases (e.parse_uuid u.uid)) [
            | inl bad ↦ rw (member, bad) (λ v e. cc, k)
            | inr (uid, good) ↦
                let user : AuthedUser = record { id = uid; name = u.username } in
                let p =
                  vouch user (record {
                    answer = u;
                    accepted = q;
                    member = member;
                    uid = good;
                    name = refl;
                  }) in
                rw (member, good)
                  (remembered-Admits (e.hash_token token) user a _ p k
                    (put-Holds e.evicted_at e.put_at (e.hash_token token) user a.cache p k))
          ]
        ]

    consult-Admits :
        (a : Api) (o : Option AuthedUser) (c : TokenCache)
        → ((user : AuthedUser)
            → Accepted group e a.sa_token token user
            → P (e.hash_token token) user)
        → Answers (e.hash_token token) (o, c)
        → Admits (e.hash_token token) (consult group e token a (o, c))
    consult-Admits a none c vouch k =
        admit-Admits a.sa_token (review e.post e.reread token a.sa_token).0
          (record { cache = c; sa_token = (review e.post e.reread token a.sa_token).1 }) refl vouch
          k.1
    consult-Admits a (some user) c vouch k =
        (λ u e. let it : user ≡ u = cc in subst (P _) it (k.0 user refl), k.1)

    -- Whatever holds of a user whenever a review accepts a token of that key as a member of the
    -- required group, and holds of every entry of the cache, holds of every user that a request is
    -- let in as, and again of every entry of the cache after it.
    pub get_current_user-Admits :
        (a : Api)
        → ((user : AuthedUser)
            → Accepted group e a.sa_token token user
            → P (e.hash_token token) user)
        → Holds a.cache
        → Admits (e.hash_token token) (get_current_user group e (some token) a)
    unfolding get_current_user
    get_current_user-Admits a vouch k =
        consult-Admits a (get e.read_at (e.hash_token token) a.cache).0
          (get e.read_at (e.hash_token token) a.cache).1 vouch
          (get-Holds e.read_at (e.hash_token token) a.cache k)
