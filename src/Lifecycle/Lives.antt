-- ===== src/Lifecycle/Lives.antt =====
-- The rules by which the life of a process is put together, for
-- app/ticker/runner.py, app/worker/runner.py and app/main.py.
use symmetrical_disco.Base.{
  ◌≡◌, refl, ap, ◌∙◌, Bool, true, false, Option, none, some, List, [], ◌∷◌, ◌++◌, any, ℕ, sym,
  if◌then◌else◌,
}
use mathlib.Core.Path.{subst}
use mathlib.Core.List.{append-nil, append_assoc}
use symmetrical_disco.Effects.{World, Result, ok, raise, Error}
use symmetrical_disco.Lifecycle.{
  Process, P, Resource, Event, closed, running, Closings, close, ◌>>=◌, ◌>>◌, then_next, note,
  note_running, skip, if_set, if_some,
}
use symmetrical_disco.Lifecycle.Starts.{
  is_running, Prepares, prepared, gave_up, Steps, if_port, any-append,
}

-- A process that begins over the world `w`.
abbrev pub newborn : World → Process
newborn w = record { world = w; events = [] }

-- The life of a process, whose start has the events `new` and whose end the events `closing`: its
-- start raises, and it sends nothing; or an exception leaves its main part; or closing a resource
-- raises, and this one and those after it are not closed; or it comes to its end.
pub data Lives (closings : Closings) (new closing : List Event) (p : Process)
    (out : Result (Unit {0}) × Process) : Type 0 where
  starts_not :
      (e : Error) (events : List Event)
      → out.0 ≡ raise e
      → out.1.events ≡ p.events ++ events
      → any is_running events ≡ false
      → out.1.world.sent ≡ p.world.sent
      → Lives closings new closing p out
  breaks_off :
      (e : Error)
      → out.0 ≡ raise e
      → out.1.events ≡ p.events ++ (new ++ running p.world.sent ∷ [])
      → Lives closings new closing p out
  closing_fails :
      (e : Error) (r : Resource) (done rest : List Event)
      → closing ≡ done ++ closed r ∷ rest
      → closings r ≡ raise e
      → out.0 ≡ raise e
      → out.1.events ≡ p.events ++ (new ++ running p.world.sent ∷ done)
      → Lives closings new closing p out
  ends_well :
      out.0 ≡ ok tt
      → out.1.events ≡ p.events ++ (new ++ running p.world.sent ∷ closing)
      → Lives closings new closing p out

behind :
    (p v : Process) (a b : List Event)
    → v.events ≡ p.events ++ a
    → v.events ++ b ≡ p.events ++ (a ++ b)
behind p v a b e = ap (λ l. l ++ b) e ∙ append_assoc p.events a b

behind_running :
    (p v : Process) (a b l : List Event)
    → v.events ≡ p.events ++ a
    → v.world.sent ≡ p.world.sent
    → v.events ++ (b ++ running v.world.sent ∷ l)
      ≡ p.events ++ ((a ++ b) ++ running p.world.sent ∷ l)
behind_running p v a b l e sent =
    behind p v a (b ++ running v.world.sent ∷ l) e
    ∙ ap (λ c. p.events ++ (a ++ (b ++ running c ∷ l))) sent
    ∙ ap (λ x. p.events ++ x) (sym (append_assoc a b (running p.world.sent ∷ l)))

Lives-bind :
    {closings : Closings} (a b closing : List Event) (k : P (Unit {0})) (p : Process)
    (q : Result (Unit {0}) × Process)
    → any is_running a ≡ false
    → ((v : Process) → Lives closings b closing v (k v))
    → Prepares a p q
    → Lives closings (a ++ b) closing p (then_next (λ _. k) q)
Lives-bind a b closing k p q early rest (gave_up e events r noted h sent) =
    rw r (starts_not e events refl noted h sent)
Lives-bind {closings} a b closing k p q early rest (prepared r noted sent) = rw r (go_on (rest q.1))
  where
    go_on : Lives closings b closing q.1 (k q.1) → Lives closings (a ++ b) closing p (k q.1)
    go_on (starts_not e events r' noted' h sent') =
        starts_not e (a ++ events) r' (noted' ∙ behind p q.1 a events noted)
          (any-append is_running a events early h) (sent' ∙ sent)
    go_on (breaks_off e r' noted') =
        breaks_off e r' (noted' ∙ behind_running p q.1 a b [] noted sent)
    go_on (closing_fails e x done left split fails r' noted') =
        closing_fails e x done left split fails r'
          (noted' ∙ behind_running p q.1 a b done noted sent)
    go_on (ends_well r' noted') =
        ends_well r' (noted' ∙ behind_running p q.1 a b closing noted sent)

pub after_Steps :
    {closings : Closings} {a : List Event} {m : P (Unit {0})} (b closing : List Event)
    (k : P (Unit {0}))
    → Steps a m
    → ((v : Process) → Lives closings b closing v (k v))
    → (p : Process) → Lives closings (a ++ b) closing p ((m >> k) p)
unfolding ◌>>=◌
after_Steps {a} {m} b closing k s rest p =
    Lives-bind a b closing k p (m p) s.early rest (s.prepares p)

pub last_Steps :
    {closings : Closings} {a : List Event} {m : P (Unit {0})} (closing : List Event)
    (k : P (Unit {0}))
    → Steps a m
    → ((v : Process) → Lives closings [] closing v (k v))
    → (p : Process) → Lives closings a closing p ((m >> k) p)
last_Steps {closings} {a} {m} closing k s rest p =
    subst (λ l. Lives closings l closing p ((m >> k) p)) (append-nil a)
      (after_Steps [] closing k s rest p)

-- The main part of a process notes nothing.
abbrev pub NotesNothing : P (Unit {0}) → Type 0
NotesNothing m = (p : Process) → (m p).1.events ≡ p.events

-- How closing ends: all is closed; or the call for `r` raises, and what stands before it is closed.
pub data Closed (closings : Closings) (closing : List Event) (p : Process)
    (out : Result (Unit {0}) × Process) : Type 0 where
  all_closed : out.0 ≡ ok tt → out.1.events ≡ p.events ++ closing → Closed closings closing p out
  part_closed :
      (e : Error) (r : Resource) (done rest : List Event)
      → closing ≡ done ++ closed r ∷ rest
      → closings r ≡ raise e
      → out.0 ≡ raise e
      → out.1.events ≡ p.events ++ done
      → Closed closings closing p out

abbrev pub Closes : Closings → List Event → P (Unit {0}) → Type 0
Closes closings closing m = (p : Process) → Closed closings closing p (m p)

module _ {closings : Closings} (main : P (Unit {0})) (silent : NotesNothing main)
    (closing : List Event) (last : P (Unit {0})) (closes : Closes closings closing last) where
  ended :
      (p v : Process) (out : Result (Unit {0}) × Process)
      → v.events ≡ p.events ++ running p.world.sent ∷ []
      → Closed closings closing v out
      → Lives closings [] closing p out
  ended p v out noted (all_closed r e) =
      ends_well r (e ∙ behind p v (running p.world.sent ∷ []) closing noted)
  ended p v out noted (part_closed x q done rest split fails r e) =
      closing_fails x q done rest split fails r
        (e ∙ behind p v (running p.world.sent ∷ []) done noted)

  then_Closes :
      (p : Process) (q : Result (Unit {0}) × Process)
      → q.1.events ≡ p.events ++ running p.world.sent ∷ []
      → Lives closings [] closing p (then_next (λ _. last) q)
  then_Closes p (raise e, v) noted = breaks_off e refl noted
  then_Closes p (ok tt, v) noted = ended p v (last v) noted (closes v)

  pub main-Lives : (p : Process) → Lives closings [] closing p ((note_running >> (main >> last)) p)
  unfolding ◌>>=◌ note_running
  main-Lives p =
      let begun : Process = record p { events = p.events ++ running p.world.sent ∷ [] } in
      then_Closes p (main begun) (silent begun)

module _ (closings : Closings) where
  close_by :
      (r : Resource) (end : Result (Unit {0})) (p : Process)
      → closings r ≡ end
      → Closed closings (closed r ∷ []) p (then_next (λ _. note (closed r)) (end, p))
  unfolding note
  close_by r (ok tt) p h = all_closed refl refl
  close_by r (raise e) p h = part_closed e r [] [] refl h refl (sym (append-nil p.events))

  pub close-Closes : (r : Resource) → Closes closings (closed r ∷ []) (close closings r)
  unfolding close ◌>>=◌
  close-Closes r p = close_by r (closings r) p refl

  bind_Closed :
      (a b : List Event) (k : P (Unit {0})) (p : Process) (q : Result (Unit {0}) × Process)
      → Closes closings b k
      → Closed closings a p q
      → Closed closings (a ++ b) p (then_next (λ _. k) q)
  bind_Closed a b k p q ck (part_closed e r done rest split fails x noted) = rw x (
      part_closed e r done (rest ++ b)
        (ap (λ l. l ++ b) split ∙ append_assoc done (closed r ∷ rest) b) fails refl noted)
  bind_Closed a b k p q ck (all_closed x noted) = rw x (go_on (ck q.1))
    where
      go_on : Closed closings b q.1 (k q.1) → Closed closings (a ++ b) p (k q.1)
      go_on (all_closed y e) = all_closed y (e ∙ behind p q.1 a b noted)
      go_on (part_closed e r done rest split fails y more) =
          part_closed e r (a ++ done) rest
            (ap (λ l. a ++ l) split ∙ sym (append_assoc a done (closed r ∷ rest))) fails y
            (more ∙ behind p q.1 a done noted)

  pub bind-Closes :
      (a b : List Event) (m k : P (Unit {0}))
      → Closes closings a m
      → Closes closings b k
      → Closes closings (a ++ b) (m >> k)
  unfolding ◌>>=◌
  bind-Closes a b m k cm ck p = bind_Closed a b k p (m p) ck (cm p)

  skip-Closes : Closes closings [] skip
  skip-Closes p = all_closed refl (sym (append-nil p.events))

  pub if_some-Closes :
      (o : Option ℕ) (a : List Event) (m : P (Unit {0}))
      → Closes closings a m
      → Closes closings (if_port o a) (if_some o m)
  if_some-Closes none a m c = skip-Closes
  if_some-Closes (some port) a m c = c

  pub if_set-Closes :
      (b : Bool) (a : List Event) (m : P (Unit {0}))
      → Closes closings a m
      → Closes closings (if b then a else []) (if_set b m)
  if_set-Closes true a m c = c
  if_set-Closes false a m c = skip-Closes

  pub first-Closes :
      (r : Resource) (a : List Event) (m : P (Unit {0}))
      → Closes closings a m
      → Closes closings (closed r ∷ a) (close closings r >> m)
  first-Closes r a m c = bind-Closes (closed r ∷ []) a (close closings r) m (close-Closes r) c
