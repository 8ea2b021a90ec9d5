-- ===== src/Ticker/Promotion.antt =====
-- What `promote` of app/queue/delayed.py sends, and in which order.
use symmetrical_disco.Base.{
  ℕ, suc, ◌≤◌, ◌≡◌, refl, sym, ap, ◌∙◌, String, List, [], ◌∷◌, ◌++◌, arith, length, take, inl, inr,
}
use mathlib.Core.List.{append-nil, append_assoc}
use symmetrical_disco.Models.{JobId}
use symmetrical_disco.Effects.{
  World, Message, Command, xadd, zrem, Result, ok, raise, redis_error, send, ◌>>=◌, continue,
}
use symmetrical_disco.Effects.Inversion.{send-cases}
use symmetrical_disco.Queue.{send_all, promote}

abbrev pub additions : List (String × Message) → List Command
additions [] = []
additions ((stream, m) ∷ rest) = xadd stream m ∷ additions rest

take-length : (routed : List (String × Message)) → take (length routed) routed ≡ routed
take-length [] = refl
take-length (r ∷ routed) = ap (λ l. r ∷ l) (take-length routed)

-- What a run has sent of the messages, and of a last command behind them.
pub data Sent (routed : List (String × Message)) (last : List Command) (c : List Command)
    (r : Result (Unit {0})) (sent : List Command) : Type 0 where
  whole : r ≡ ok tt → sent ≡ c ++ additions routed ++ last → Sent routed last c r sent
  part :
      (k : ℕ)
      → k ≤ length routed
      → r ≡ raise redis_error
      → sent ≡ c ++ additions (take k routed)
      → Sent routed last c r sent

after_one :
    (stream : String) (m : Message) (rest : List (String × Message)) (last c : List Command)
    (r : Result (Unit {0})) (sent : List Command)
    → Sent rest last (c ++ xadd stream m ∷ []) r sent
    → Sent ((stream, m) ∷ rest) last c r sent
after_one stream m rest last c r sent (whole e p) = whole e (p ∙ simp append_assoc)
after_one stream m rest last c r sent (part k h e p) =
    part (suc k) (omega arith) e (p ∙ append_assoc c (xadd stream m ∷ []) (additions (take k rest)))

send_all-Sent :
    (routed : List (String × Message)) (w : World)
    → Sent routed [] w.sent (send_all routed w).0 (send_all routed w).1.sent
unfolding send_all ◌>>=◌
send_all-Sent [] w = whole refl (simp append-nil)
send_all-Sent ((stream, m) ∷ rest) w = elim (send-cases (xadd stream m) w) [
  | inl (up, sent) ↦
      let rest_sent : Sent rest [] (w.sent ++ xadd stream m ∷ []) _ _ =
        rw sent at (send_all-Sent rest (send (xadd stream m) w).1) in
      rw up (after_one stream m rest [] w.sent _ _ rest_sent)
  | inr (down, sent) ↦ rw down (part 0 (omega arith) refl (sent ∙ sym (append-nil w.sent)))
]

then_remove :
    (routed : List (String × Message)) (zset : String) (ids : List JobId) (c : List Command)
    (r : Result (Unit {0})) (v : World)
    → Sent routed [] c r v.sent
    → Sent routed
        (zrem zset ids ∷ [])
        c
        (continue (λ _. send (zrem zset ids)) r v).0
        (continue (λ _. send (zrem zset ids)) r v).1.sent
then_remove routed zset ids c r v (whole e p) = elim (send-cases (zrem zset ids) v) [
  | inl (up, sent) ↦
      rw e (whole up (sent ∙ ap (λ l. l ++ zrem zset ids ∷ []) p ∙ simp (append_assoc, append-nil)))
  | inr (down, sent) ↦
      rw e (part (length routed) (omega arith) down (sent ∙ p ∙ simp (append-nil, take-length)))
]
then_remove routed zset ids c r v (part k h e p) = rw e (part k h refl p)

-- A promotion sends every message of the batch, in order, and then removes the ids from the delayed
-- set; if Redis fails at some point, it has sent a first part of the messages and removed no id, so
-- that the ids are due again. It is so whatever other processes do.
pub promote-Sent :
    (zset : String) (routed : List (String × Message)) (i : JobId) (is : List JobId) (w : World)
    → Sent routed
        (zrem zset (i ∷ is) ∷ [])
        w.sent
        (promote zset routed (i ∷ is) w).0
        (promote zset routed (i ∷ is) w).1.sent
unfolding promote ◌>>=◌
promote-Sent zset routed i is w =
    then_remove routed zset (i ∷ is) w.sent (send_all routed w).0 (send_all routed w).1
      (send_all-Sent routed w)
