-- ===== src/Effects/Inversion.antt =====
-- What a successful run says of its parts, in any world.
use symmetrical_disco.Base.{◌≡◌, refl, List, [], ◌∷◌, ◌++◌, ◌⊎◌, Bool-cases, inl, inr}
use symmetrical_disco.Effects.{
  World, M, Result, ok, raise, ◌>>=◌, continue, Command, send, arrive, Moment, advance, redis_error,
}

continue_ok :
    {A B : Type 0} (f : A → M B) (r : Result A) (v : World) {b : B}
    → (continue f r v).0 ≡ ok b
    → (a : A) × (r ≡ ok a) × ((f a v).0 ≡ ok b) × (continue f r v ≡ f a v)
continue_ok f (ok a) v h = (a, refl, h, refl)
continue_ok f (raise e) v h = cc

-- A block that returned ran its first part to a value, and its rest from there.
pub bind_ok :
    {A B : Type 0} (m : M A) (f : A → M B) (w : World) {b : B}
    → ((m >>= f) w).0 ≡ ok b
    → (a : A) × ((m w).0 ≡ ok a) × ((f a (m w).1).0 ≡ ok b) × ((m >>= f) w ≡ f a (m w).1)
unfolding ◌>>=◌
bind_ok m f w h = continue_ok f (m w).0 (m w).1 h

-- A command that was sent is the last one.
pub send_ok :
    (c : Command) (w : World)
    → (send c w).0 ≡ ok tt
    → (send c w).1.sent ≡ (advance w).sent ++ c ∷ []
unfolding send
send_ok c w h = elim (Bool-cases (advance w).redis_up) [
  | inl up ↦ rw up refl
  | inr down ↦ let e : raise redis_error ≡ ok tt = rw down at h in cc
]

pub arrive-sent : (ms : List Moment) (w : World) → (arrive ms w).sent ≡ w.sent
arrive-sent [] w = refl
arrive-sent (m ∷ ms) w = refl

-- A command is sent behind those before it, or Redis is down and nothing is.
pub send-cases :
    (c : Command) (w : World)
    → ((send c w).0 ≡ ok tt) × ((send c w).1.sent ≡ w.sent ++ c ∷ [])
      ⊎ ((send c w).0 ≡ raise redis_error) × ((send c w).1.sent ≡ w.sent)
unfolding send
send-cases c w = elim (Bool-cases (advance w).redis_up) [
  | inl up ↦ inl (rw up refl, rw (up, arrive-sent w.future w) refl)
  | inr down ↦ inr (rw down refl, rw (down, arrive-sent w.future w) refl)
]
