-- ===== src/Tests/RateLimit.antt =====
-- The keys of the counters of a user's submissions and of an unauthenticated peer.
use symmetrical_disco.Base.{◌≡◌, refl, none, some, [], ◌∷◌, arith}
use symmetrical_disco.RateLimit.{Caller, submit, rate_key, user_or_ip_identifier, identity_text}
use symmetrical_disco.RateLimit.Keys.{bucket_of, rate_key-injective}

abbrev ann : Caller
ann = record { authed_user_id = some 1; client_host = none }

abbrev ann_elsewhere : Caller
ann_elsewhere = record { authed_user_id = some 1; client_host = some (b'h' ∷ []) }

keys_agree : rate_key [] submit ann ≡ rate_key [] submit ann_elsewhere
unfolding rate_key user_or_ip_identifier identity_text
keys_agree = refl

rate_key-injective_example :
    (submit ≡ submit) × (bucket_of (some 1) none ≡ bucket_of (some 1) (some (b'h' ∷ [])))
rate_key-injective_example =
    rate_key-injective [] submit submit ann ann_elsewhere (omega arith) (omega arith) keys_agree
