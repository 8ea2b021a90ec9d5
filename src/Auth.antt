-- ===== src/Auth.antt =====
-- app/auth/tokenreview.py and get_current_user of app/api/deps.py: who a request comes from. HTTP,
-- the token file, SHA-256 and the parse of a UUID are arguments.
pub mod Cache
pub mod Vouching
pub mod Identity
use symmetrical_disco.Base.{
  ℕ, String, Bool, true, false, Option, none, some, List, ◌==◌, leb, if◌then◌else◌, any, str_eq,
}
use symmetrical_disco.Models.{Time}
use symmetrical_disco.Auth.Identity.{AuthedUser}
use symmetrical_disco.Auth.Cache.{TokenCache, get, put}

pub record ReviewedUser : Type 0 where
  pub uid : String
  pub username : String
  pub groups : List String

-- An answer of the apiserver: its status, and what its body says: `authenticated`, and the user, which
-- counts only then.
pub record Response : Type 0 where
  pub status_code : ℕ
  pub is_authenticated : Bool
  pub user : ReviewedUser

-- TokenReviewUnavailable, `None`, or a user.
pub data Review : Type 0 where
  unavailable : Review
  rejected : Review
  reviewed : ReviewedUser → Review

-- `status.get("authenticated")` and then the user.
abbrev pub judged : Response → Review
judged r = if r.is_authenticated then reviewed r.user else rejected

-- Behind the posts: the last response, or the HTTPError.
unfoldable pub read_response : Option Response → Review
read_response none = unavailable
read_response (some r) =
    if r.status_code == 401
    then unavailable
    else if leb 300 r.status_code
    then unavailable
    else judged r

abbrev pub is_unauthorized : Option Response → Bool
is_unauthorized none = false
is_unauthorized (some r) = r.status_code == 401

-- The service account's token, as `TokenReviewer` holds it; `post` is the n-th post of this review.
unfoldable pub review :
    (ℕ → Option String → String → Option Response)
    → Option String
    → String
    → Option String
    → Review × Option String
unfolding read_response
review post reread user_token sa_token =
    if is_unauthorized (post 0 sa_token user_token)
    then (read_response (post 1 reread user_token), reread)
    else (read_response (post 0 sa_token user_token), sa_token)

pub data AuthError : Type 0 where
  missing_token auth_unavailable invalid_token forbidden_group store_failed : AuthError

pub data Authenticated : Type 0 where
  refused : AuthError → Authenticated
  user_is : AuthedUser → Authenticated

-- The service's side of one request.
pub record Api : Type 0 where
  pub cache : TokenCache
  pub sa_token : Option String

-- The clock's three readings, SHA-256, the parse of a UUID, the posts and the token file.
pub record Surroundings : Type 0 where
  pub read_at : Time
  pub evicted_at : Time
  pub put_at : Time
  pub hash_token : String → String
  pub parse_uuid : String → Option ℕ
  pub post : ℕ → Option String → String → Option Response
  pub reread : Option String

abbrev pub remembered : AuthedUser → Api → Option TokenCache → Authenticated × Api
remembered user a none = (refused store_failed, a)
remembered user a (some c) = (user_is user, record a { cache = c })

abbrev pub identified : Surroundings → String → String → Api → Option ℕ → Authenticated × Api
identified e token name a none = (refused invalid_token, a)
identified e token name a (some uid) =
    let user : AuthedUser = record { id = uid; name = name } in
    remembered user a (put e.evicted_at e.put_at (e.hash_token token) user a.cache)

-- What the answer of the review leads to.
unfoldable pub admit : String → Surroundings → String → Review → Api → Authenticated × Api
admit group e token unavailable a = (refused auth_unavailable, a)
admit group e token rejected a = (refused invalid_token, a)
admit group e token (reviewed u) a =
    if any (λ g. str_eq g group) u.groups
    then identified e token u.username a (e.parse_uuid u.uid)
    else (refused forbidden_group, a)

abbrev pub with_review :
    String → Surroundings → String → TokenCache → Review × Option String → Authenticated × Api
with_review group e token c (r, sa) = admit group e token r (record { cache = c; sa_token = sa })

abbrev pub consult :
    String → Surroundings → String → Api → Option AuthedUser × TokenCache → Authenticated × Api
consult group e token a (some user, c) = (user_is user, record a { cache = c })
consult group e token a (none, c) =
    with_review group e token c (review e.post e.reread token a.sa_token)

-- `none` as the credentials: the request has no bearer token.
unfoldable pub get_current_user : String → Surroundings → Option String → Api → Authenticated × Api
unfolding admit review
get_current_user group e none a = (refused missing_token, a)
get_current_user group e (some token) a =
    consult group e token a (get e.read_at (e.hash_token token) a.cache)
