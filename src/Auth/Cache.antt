-- ===== src/Auth/Cache.antt =====
-- app/auth/cache.py: the bounded cache of validated tokens. A dict is the list of its items, in the
-- order of their insertion. The clock's readings are arguments.
pub mod Bounds
pub mod Lookup
use symmetrical_disco.Base.{
  ℕ, ◌+◌, String, Bool, true, false, ◌&&◌, not, Option, none, some, List, [], ◌∷◌, ◌++◌, ◌==◌, ltb,
  leb, if◌then◌else◌, keep, length, is_some, str_eq,
}
use symmetrical_disco.Models.{Time}
use symmetrical_disco.Auth.Identity.{AuthedUser}

abbrev pub Entry : Type 0
Entry = Time × AuthedUser

-- A `ttl` of 0 stands for every one that is not positive.
pub record TokenCache : Type 0 where
  pub ttl : Time
  pub max : ℕ
  pub entries : List (String × Entry)

abbrev pub lookup : String → List (String × Entry) → Option Entry
lookup h [] = none
lookup h ((k, e) ∷ rest) = if str_eq k h then some e else lookup h rest

-- `d.pop(h, None)`.
abbrev pub remove : String → List (String × Entry) → List (String × Entry)
remove h l = keep (λ e. not (str_eq e.0 h)) l

-- `d[h] = e`: a key that is there keeps its place.
abbrev pub assign : String → Entry → List (String × Entry) → List (String × Entry)
assign h e [] = (h, e) ∷ []
assign h e ((k, f) ∷ rest) = if str_eq k h then (k, e) ∷ rest else (k, f) ∷ assign h e rest

abbrev pub unexpired : Time → TokenCache → String → Option Entry → Option AuthedUser × TokenCache
unexpired now c h none = (none, c)
unexpired now c h (some (at, user)) =
    if leb at now then (none, record c { entries = remove h c.entries }) else (some user, c)

unfoldable pub get : Time → String → TokenCache → Option AuthedUser × TokenCache
get now h c = unexpired now c h (lookup h c.entries)

-- The `while` of `_evict`. `none` is the StopIteration of `next` on an empty dict.
unfoldable pub drop_oldest : ℕ → List (String × Entry) → Option (List (String × Entry))
drop_oldest max [] = if leb max 0 then none else some []
drop_oldest max (e ∷ l) =
    let rest = drop_oldest max l in if leb max (length (e ∷ l)) then rest else some (e ∷ l)

unfoldable pub evict : Time → ℕ → List (String × Entry) → Option (List (String × Entry))
unfolding drop_oldest
evict now max l = drop_oldest max (keep (λ e. ltb now e.1.0) l)

abbrev pub stored :
    Time → String → AuthedUser → TokenCache → Option (List (String × Entry)) → Option TokenCache
stored now h user c none = none
stored now h user c (some l) = some (record c { entries = assign h (now + c.ttl, user) l })

-- `evicted_at` and `now` are the two readings of the clock.
unfoldable pub put : Time → Time → String → AuthedUser → TokenCache → Option TokenCache
unfolding evict
put evicted_at now h user c =
    if c.ttl == 0
    then some c
    else stored now h user c (
        if not (is_some (lookup h c.entries)) && leb c.max (length c.entries)
        then evict evicted_at c.max c.entries
        else some c.entries)
