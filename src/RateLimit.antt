-- ===== src/RateLimit.antt =====
-- app/api/ratelimit.py: whom a request counts for, the key of its counter, and the dependency of a
-- route. The script of fastapi-limiter runs in Redis; its replies are arguments. Texts are lists of
-- code points.
pub mod Keys
use symmetrical_disco.Base.{
  ℕ, zero, suc, ◌+◌, ◌/◌, Bool, true, false, ◌||◌, not, Option, none, some, List, [], ◌∷◌, ◌++◌,
  ◌==◌, ltb, if◌then◌else◌,
}
use Prim.Native.Nat.{◌%◌}
use symmetrical_disco.Config.{Settings}
use symmetrical_disco.Payloads.{Text}
use symmetrical_disco.Effects.{
  M, pure, throw, ◌>>=◌, ◌>>◌, ask, when, redis_error, runtime_error, http_error,
}

-- `str` of a UUID: 32 hexadecimal digits with dashes before the digits 8, 12, 16 and 20.
abbrev pub hex_digit : ℕ → ℕ
hex_digit d = if ltb d 10 then 48 + d else 87 + d

unfoldable pub digits : ℕ → ℕ → Text
digits zero n = []
digits (suc k) n = digits k (n / 16) ++ hex_digit (n % 16) ∷ []

abbrev pub is_group_start : ℕ → Bool
is_group_start k = k == 8 || (k == 12 || (k == 16 || k == 20))

unfoldable pub dashed : ℕ → Text → Text
dashed k [] = []
dashed k (d ∷ ds) =
    let rest = dashed (suc k) ds in if is_group_start k then b'-' ∷ d ∷ rest else d ∷ rest

unfoldable pub uuid_text : ℕ → Text
unfolding digits dashed
uuid_text i = dashed 0 (digits 32 i)

-- What the identifier reads of a request: the user that was authenticated, and the peer.
pub record Caller : Type 0 where
  pub authed_user_id : Option ℕ
  pub client_host : Option Text

abbrev pub host_of : Option Text → Text
host_of none = b'u' ∷ b'n' ∷ b'k' ∷ b'n' ∷ b'o' ∷ b'w' ∷ b'n' ∷ []
host_of (some host) = host

unfoldable pub identity_text : Option ℕ → Option Text → Text
unfolding uuid_text
identity_text none host = b'i' ∷ b'p' ∷ b':' ∷ host_of host
identity_text (some user) host = b'u' ∷ b':' ∷ uuid_text user

unfoldable pub user_or_ip_identifier : Caller → Text
unfolding identity_text
user_or_ip_identifier r = identity_text r.authed_user_id r.client_host

pub data LimitGroup : Type 0 where
  submit control read stats : LimitGroup

abbrev pub group_name : LimitGroup → Text
group_name submit = b's' ∷ b'u' ∷ b'b' ∷ b'm' ∷ b'i' ∷ b't' ∷ []
group_name control = b'c' ∷ b'o' ∷ b'n' ∷ b't' ∷ b'r' ∷ b'o' ∷ b'l' ∷ []
group_name read = b'r' ∷ b'e' ∷ b'a' ∷ b'd' ∷ []
group_name stats = b's' ∷ b't' ∷ b'a' ∷ b't' ∷ b's' ∷ []

-- `getattr(settings, f"{group}_rate_limit_per_min")`.
unfoldable pub times_of : Settings → LimitGroup → ℕ
times_of s submit = s.submit_rate_limit_per_min
times_of s control = s.control_rate_limit_per_min
times_of s read = s.read_rate_limit_per_min
times_of s stats = s.stats_rate_limit_per_min

unfoldable pub rate_key : Text → LimitGroup → Caller → Text
unfolding user_or_ip_identifier
rate_key prefix group r = prefix ++ b':' ∷ (group_name group ++ b':' ∷ user_or_ip_identifier r)

-- The reply of the script: 0, or the milliseconds until the window ends; or NoScriptError.
pub data CheckReply : Type 0 where
  pexpire : ℕ → CheckReply
  no_script : CheckReply

abbrev pub final : CheckReply → M ℕ
final (pexpire n) = pure n
final no_script = throw redis_error

-- `except NoScriptError`: the script is loaded, and tried once more.
abbrev pub or_reload : CheckReply → M ℕ → M ℕ
or_reload (pexpire n) again = pure n
or_reload no_script again = again

-- `is_ready` says that FastAPILimiter has its client; the script gets `rate_key` and `times`.
unfoldable pub limit_call :
    Bool → (Text → ℕ → CheckReply) → (Text → ℕ → CheckReply) → Text → ℕ → M (Unit {0})
limit_call is_ready first second key times =
    if is_ready
    then (do
      reply ← ask (first key times)
      wait ← or_reload reply (do _ ← ask tt; reply' ← ask (second key times); final reply')
      when (not (wait == 0)) (throw (http_error 429)))
    else throw runtime_error

unfoldable pub rate_limit :
    Settings
    → Text
    → LimitGroup
    → Bool
    → (Text → ℕ → CheckReply)
    → (Text → ℕ → CheckReply)
    → Caller
    → M (Unit {0})
unfolding rate_key times_of limit_call
rate_limit s prefix group is_ready first second r =
    if s.is_rate_limit_enabled
    then limit_call is_ready first second (rate_key prefix group r) (times_of s group)
    else pure tt
