-- ===== src/Queue/Priority.antt =====
-- The order of the streams in `read_priority` of app/queue/consumer.py.
use symmetrical_disco.Base.{◌≡◌, ◌≢◌, sym, ap, String, List, [], ◌∷◌, arith}
use symmetrical_disco.Effects.{World, ok, pure, ◌>>=◌, ask}
use symmetrical_disco.Effects.Inversion.{bind_ok}
use symmetrical_disco.Queue.{Delivery, Reply, flatten, first_answer, read_priority}

-- The streams that were passed over, and the one that answered, or the blocking read.
pub data Served (probe : String → Reply) (blocked : Reply)
    : List String → List Delivery → Type 0 where
  by_stream :
      {stream : String} {streams : List String} {l : List Delivery}
      → l ≡ flatten (probe stream)
      → l ≢ []
      → Served probe blocked (stream ∷ streams) l
  passed_over :
      {stream : String} {streams : List String} {l : List Delivery}
      → flatten (probe stream) ≡ []
      → Served probe blocked streams l
      → Served probe blocked (stream ∷ streams) l
  by_blocking : {l : List Delivery} → l ≡ flatten blocked → Served probe blocked [] l

ask_ok : {A : Type 0} (a : A) (w : World) {b : A} → (ask a w).0 ≡ ok b → b ≡ a
unfolding ask
ask_ok a w h = ground arith

answered :
    (probe : String → Reply) (blocked : Reply) (stream : String) (streams : List String)
    (ds : List Delivery) (v : World) {l : List Delivery}
    → flatten (probe stream) ≡ ds
    → (first_answer ds (read_priority probe blocked streams) v).0 ≡ ok l
    → ((read_priority probe blocked streams v).0 ≡ ok l → Served probe blocked streams l)
    → Served probe blocked (stream ∷ streams) l
unfolding ◌>>=◌
answered probe blocked stream streams [] v e h rec = passed_over e (rec h)
answered probe blocked stream streams (d ∷ ds) v e h rec = by_stream (ground arith) (ground arith)

-- Whatever is read comes from the first stream with messages, in the order of the streams; the
-- blocking read over all of them answers only if each of them was empty.
pub read_priority-Served :
    (probe : String → Reply) (blocked : Reply) (streams : List String) (w : World)
    {l : List Delivery}
    → (read_priority probe blocked streams w).0 ≡ ok l
    → Served probe blocked streams l
unfolding read_priority ◌>>=◌
read_priority-Served probe blocked [] w h =
    let (r, asked, rest, _) = bind_ok (ask blocked) (λ r. pure (flatten r)) w h in
    let e : r ≡ blocked = ask_ok blocked w asked in by_blocking (ground arith)
read_priority-Served probe blocked (stream ∷ streams) w h =
    let (r, asked, rest, _) =
      bind_ok (ask (probe stream))
        (λ r. first_answer (flatten r) (read_priority probe blocked streams)) w h in
    answered probe blocked stream streams (flatten r) (ask (probe stream) w).1
      (ap flatten (sym (ask_ok (probe stream) w asked))) rest
      (read_priority-Served probe blocked streams (ask (probe stream) w).1)
