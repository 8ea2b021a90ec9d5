-- ===== src/Tests/Auth.antt =====
-- The token cache and the authentication of a request, at concrete tokens.
use symmetrical_disco.Base.{
  true, false, ℕ, zero, suc, ◌≤◌, ◌<◌, ◌≡◌, refl, String, Option, none, some, [], ◌∷◌, arith,
}
use symmetrical_disco.Models.{Time}
use symmetrical_disco.Auth.Identity.{AuthedUser}
use symmetrical_disco.Auth.Cache.{TokenCache, get, put, drop_oldest, evict}
use symmetrical_disco.Auth.Cache.Bounds.{IsBounded, put-IsBounded}
use symmetrical_disco.Auth.Cache.Lookup.{put-get}
use symmetrical_disco.Auth.{
  Api, Surroundings, Response, ReviewedUser, reviewed, user_is, get_current_user, admit, review,
  read_response,
}
use symmetrical_disco.Auth.Vouching.{Accepted, Admits, get_current_user-Admits}

abbrev ann : AuthedUser
ann = record { id = 1; name = "ann" }

abbrev bob : AuthedUser
bob = record { id = 2; name = "bob" }

-- A full cache of two tokens, of which the first has expired at time 100.
abbrev full : TokenCache
full = record { ttl = 60; max = 2; entries = ("h1", (90, ann)) ∷ ("h2", (150, bob)) ∷ [] }

put_evicts :
    put 100 100 "h3" ann full
    ≡ some (record full { entries = ("h2", (150, bob)) ∷ ("h3", (160, ann)) ∷ [] })
unfolding put evict drop_oldest
put_evicts = refl

put-IsBounded_example :
    (d : TokenCache) × (put 100 100 "h3" ann full ≡ some d) × (d.max ≡ 2) × IsBounded d
put-IsBounded_example = put-IsBounded 100 100 "h3" ann full (ground arith) (ground arith)

put-get_example :
    (d : TokenCache) × (put 100 100 "h3" ann full ≡ some d)
    × ((later : Time) → later < 160 → get later "h3" d ≡ (some ann, d))
    × ((later : Time) → 160 ≤ later → (get later "h3" d).0 ≡ none)
put-get_example = put-get 100 100 "h3" ann full (ground arith) (ground arith) (ground arith)

abbrev answer : ReviewedUser
answer = record { uid = "one"; username = "ann"; groups = "jobprocessor-users" ∷ [] }

-- The first post is refused, since the service's own token is stale.
abbrev posted : ℕ → Option String → String → Option Response
posted zero sa token = some (record { status_code = 401; is_authenticated = false; user = answer })
posted (suc n) sa token =
    some (record { status_code = 201; is_authenticated = true; user = answer })

abbrev surroundings : Surroundings
surroundings = record {
  read_at = 100;
  evicted_at = 101;
  put_at = 102;
  hash_token = λ t. t;
  parse_uuid = λ t. some 1;
  post = posted;
  reread = some "fresh";
}

abbrev api : Api
api = record {
  cache = record { ttl = 60; max = 2; entries = ("t0", (150, ann)) ∷ [] };
  sa_token = some "stale";
}

get_current_user_runs : get_current_user "jobprocessor-users" surroundings (some "t1") api ≡ (
  user_is ann,
  record {
    cache = record { ttl = 60; max = 2; entries = ("t0", (150, ann)) ∷ ("t1", (162, ann)) ∷ [] };
    sa_token = some "fresh";
  },
)
unfolding get_current_user admit review read_response put evict drop_oldest get
get_current_user_runs = refl

abbrev IsAnn : String → AuthedUser → Type 0
IsAnn h user = user.name ≡ "ann"

Accepted-IsAnn :
    (user : AuthedUser)
    → Accepted "jobprocessor-users" surroundings (some "stale") "t1" user
    → IsAnn "t1" user
unfolding review read_response
Accepted-IsAnn user a = let same : reviewed answer ≡ reviewed a.answer = a.accepted in cc

get_current_user-Admits_example :
    Admits IsAnn "t1" (get_current_user "jobprocessor-users" surroundings (some "t1") api)
get_current_user-Admits_example =
    get_current_user-Admits IsAnn "jobprocessor-users" surroundings "t1" api Accepted-IsAnn
      (refl, tt)
