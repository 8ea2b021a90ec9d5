-- ===== src/RateLimit/Keys.antt =====
-- The keys of the counters of app/api/ratelimit.py.
use symmetrical_disco.Base.{
  ℕ, zero, suc, ◌+◌, ◌*◌, ◌/◌, ◌<◌, ◌≡◌, refl, sym, ap, ◌∙◌, false, not, Option, none, some, [],
  ◌∷◌, ◌++◌, ◌==◌, arith, keep, All, Bool-cases, inl, inr,
}
use Prim.Native.Nat.{◌%◌}
use symmetrical_disco.Payloads.{Text}
use symmetrical_disco.RateLimit.{
  hex_digit, digits, is_group_start, dashed, uuid_text, Caller, host_of, identity_text,
  user_or_ip_identifier, LimitGroup, submit, control, read, stats, group_name, rate_key,
}

head_or : ℕ → Text → ℕ
head_or d [] = d
head_or d (c ∷ cs) = c

tail_of : Text → Text
tail_of [] = []
tail_of (c ∷ cs) = cs

append_cancel : (p : Text) {a b : Text} → p ++ a ≡ p ++ b → a ≡ b
unfolding tail_of
append_cancel [] e = e
append_cancel (c ∷ p) e = append_cancel p (ap tail_of e)

-- The first two code points.
code : Text → ℕ
code l = head_or 0 l * 1000 + head_or 0 (tail_of l)

apart : {A : Type 0} {l m : Text} → (code l == code m) ≡ false → l ≡ m → A
apart h e = let same = ap code e in absurd (ground arith)

same_name :
    (g : LimitGroup) {a b : Text}
    → group_name g ++ b':' ∷ a ≡ group_name g ++ b':' ∷ b
    → (g ≡ g) × (a ≡ b)
unfolding tail_of
same_name g e = (refl, ap tail_of (append_cancel (group_name g) e))

name-injective :
    (g h : LimitGroup) {a b : Text}
    → group_name g ++ b':' ∷ a ≡ group_name h ++ b':' ∷ b
    → (g ≡ h) × (a ≡ b)
unfolding code head_or tail_of
name-injective submit submit e = same_name submit e
name-injective submit control e = apart refl e
name-injective submit read e = apart refl e
name-injective submit stats e = apart refl e
name-injective control submit e = apart refl e
name-injective control control e = same_name control e
name-injective control read e = apart refl e
name-injective control stats e = apart refl e
name-injective read submit e = apart refl e
name-injective read control e = apart refl e
name-injective read read e = same_name read e
name-injective read stats e = apart refl e
name-injective stats submit e = apart refl e
name-injective stats control e = apart refl e
name-injective stats read e = apart refl e
name-injective stats stats e = same_name stats e

hex_digit-injective : (a b : ℕ) → a < 16 → b < 16 → hex_digit a ≡ hex_digit b → a ≡ b
hex_digit-injective a b p q e = ground arith

hex_digit-is_no_dash : (a : ℕ) → (hex_digit a == b'-') ≡ false
hex_digit-is_no_dash a = ground arith

last_of : Text → ℕ
last_of [] = 0
last_of (c ∷ []) = c
last_of (c ∷ d ∷ cs) = last_of (d ∷ cs)

front_of : Text → Text
front_of [] = []
front_of (c ∷ []) = []
front_of (c ∷ d ∷ cs) = c ∷ front_of (d ∷ cs)

last-append : (l : Text) (d : ℕ) → (last_of (l ++ d ∷ []) ≡ d) × (front_of (l ++ d ∷ []) ≡ l)
unfolding last_of front_of
last-append [] d = (refl, refl)
last-append (c ∷ []) d = (refl, refl)
last-append (c ∷ x ∷ l) d =
    let (last, front) = last-append (x ∷ l) d in (last, ap (λ m. c ∷ m) front)

-- Powers of 16.
sixteen : ℕ → ℕ
sixteen zero = 1
sixteen (suc k) = 16 * sixteen k

digits-injective : (k n m : ℕ) → n < sixteen k → m < sixteen k → digits k n ≡ digits k m → n ≡ m
unfolding sixteen digits
digits-injective zero n m p q e = omega arith
digits-injective (suc k) n m p q e =
    let last : hex_digit (n % 16) ≡ hex_digit (m % 16) =
      sym (last-append (digits k (n / 16)) (hex_digit (n % 16))).0
      ∙ ap last_of e
      ∙ (last-append (digits k (m / 16)) (hex_digit (m % 16))).0 in
    let front : digits k (n / 16) ≡ digits k (m / 16) =
      sym (last-append (digits k (n / 16)) (hex_digit (n % 16))).1
      ∙ ap front_of e
      ∙ (last-append (digits k (m / 16)) (hex_digit (m % 16))).1 in
    let high = digits-injective k (n / 16) (m / 16) (omega arith) (omega arith) front in
    let low = hex_digit-injective (n % 16) (m % 16) (omega arith) (omega arith) last in omega arith

abbrev IsDigit : ℕ → Type 0
IsDigit c = (c == b'-') ≡ false

append-All : (P : ℕ → Type 0) (l : Text) (c : ℕ) → All P l → P c → All P (l ++ c ∷ [])
append-All P [] c a p = (p, tt)
append-All P (x ∷ l) c a p = (a.0, append-All P l c a.1 p)

digits-All : (k n : ℕ) → All IsDigit (digits k n)
unfolding digits
digits-All zero n = tt
digits-All (suc k) n =
    append-All IsDigit (digits k (n / 16)) (hex_digit (n % 16)) (digits-All k (n / 16))
      (hex_digit-is_no_dash (n % 16))

-- Without the dashes.
undashed : Text → Text
undashed t = keep (λ c. not (c == b'-')) t

undashed-dashed : (k : ℕ) (ds : Text) → All IsDigit ds → undashed (dashed k ds) ≡ ds
unfolding dashed undashed
undashed-dashed k [] a = refl
undashed-dashed k (d ∷ ds) a = elim (Bool-cases (is_group_start k)) [
  | inl start ↦ rw (start, a.0, undashed-dashed (suc k) ds a.1) refl
  | inr inside ↦ rw (inside, a.0, undashed-dashed (suc k) ds a.1) refl
]

-- A UUID has 128 bits.
abbrev pub IsUuid : ℕ → Type 0
IsUuid i = i < 340282366920938463463374607431768211456

uuid_text-injective : (i j : ℕ) → IsUuid i → IsUuid j → uuid_text i ≡ uuid_text j → i ≡ j
unfolding uuid_text sixteen
uuid_text-injective i j p q e = digits-injective 32 i j p q (
    sym (undashed-dashed 0 (digits 32 i) (digits-All 32 i))
    ∙ ap undashed e
    ∙ undashed-dashed 0 (digits 32 j) (digits-All 32 j))

-- Whom a request counts for.
pub data Bucket : Type 0 where
  user : ℕ → Bucket
  host : Text → Bucket

abbrev pub bucket_of : Option ℕ → Option Text → Bucket
bucket_of none h = host (host_of h)
bucket_of (some u) h = user u

-- The id of a user is a UUID.
abbrev pub HasUuid : Option ℕ → Type 0
HasUuid none = Unit
HasUuid (some u) = IsUuid u

identity_text-injective :
    (u v : Option ℕ) (h k : Option Text)
    → HasUuid u
    → HasUuid v
    → identity_text u h ≡ identity_text v k
    → bucket_of u h ≡ bucket_of v k
unfolding identity_text tail_of code head_or
identity_text-injective none none h k p q e = ap host (ap (λ t. tail_of (tail_of (tail_of t))) e)
identity_text-injective none (some v) h k p q e = apart refl e
identity_text-injective (some u) none h k p q e = apart refl e
identity_text-injective (some u) (some v) h k p q e =
    ap user (uuid_text-injective u v p q (ap (λ t. tail_of (tail_of t)) e))

-- Two requests have the same key only if they belong to one limit group and count for the same user,
-- or, unauthenticated, for the same peer: no group and no caller exhausts the limit of another.
pub rate_key-injective :
    (prefix : Text) (g h : LimitGroup) (a b : Caller)
    → HasUuid a.authed_user_id
    → HasUuid b.authed_user_id
    → rate_key prefix g a ≡ rate_key prefix h b
    → (g ≡ h)
      × (bucket_of a.authed_user_id a.client_host ≡ bucket_of b.authed_user_id b.client_host)
unfolding rate_key user_or_ip_identifier tail_of
rate_key-injective prefix g h a b p q e =
    let (group, rest) = name-injective g h (ap tail_of (append_cancel prefix e)) in
    (
      group,
      identity_text-injective a.authed_user_id b.authed_user_id a.client_host b.client_host p q
          rest,
    )
