-- ===== src/Telemetry/Shutdown.antt =====
-- A process of app/core/telemetry.py from its set-up to its shutdown.
use symmetrical_disco.Base.{
  ℕ, Bool, true, false, ◌||◌, List, [], ◌∷◌, ◌++◌, ◌==◌, ◌≡◌, refl, ap, ◌∙◌, any, All, arith,
  Bool-cases, inl, inr,
}
use mathlib.Core.List.{append-nil}
use symmetrical_disco.Telemetry.{
  completes, raises_late, configure_telemetry, without, shutdown_telemetry,
}

abbrev is_among : List ℕ → ℕ → Bool
is_among gone x = any (λ y. y == x) gone

abbrev pub AreFresh : List ℕ → List ℕ → Type 0
AreFresh gone l = All (λ x. is_among gone x ≡ false) l

without-append : (gone a b : List ℕ) → without gone (a ++ b) ≡ without gone a ++ without gone b
without-append gone [] b = refl
without-append gone (x ∷ a) b = elim (Bool-cases (is_among gone x)) [
  | inl there ↦ rw there (without-append gone a b)
  | inr fresh ↦ rw fresh (ap (λ l. x ∷ l) (without-append gone a b))
]

without-fresh : (gone l : List ℕ) → AreFresh gone l → without gone l ≡ l
without-fresh gone [] h = refl
without-fresh gone (x ∷ l) h = rw h.0 (ap (λ m. x ∷ m) (without-fresh gone l h.1))

or_true : (b : Bool) → (b || true) ≡ true
or_true true = refl
or_true false = refl

without-all : (gone l : List ℕ) → All (λ x. is_among gone x ≡ true) l → without gone l ≡ []
without-all gone [] h = refl
without-all gone (x ∷ l) h = rw h.0 (without-all gone l h.1)

weaken :
    (y : ℕ) (gone l : List ℕ)
    → All (λ x. is_among gone x ≡ true) l
    → All (λ x. is_among (y ∷ gone) x ≡ true) l
weaken y gone [] h = tt
weaken y gone (x ∷ l) h = (rw h.0 (or_true (y == x)), weaken y gone l h.1)

all_among : (l : List ℕ) → All (λ x. is_among l x ≡ true) l
all_among [] = tt
all_among (x ∷ l) =
    let self : (x == x) ≡ true = ground arith in (rw self refl, weaken x l l (all_among l))

taken_back : (gone l : List ℕ) → AreFresh gone l → without gone (l ++ gone) ≡ l
taken_back gone l h =
    without-append gone l gone
    ∙ rw (without-fresh gone l h, without-all gone gone (all_among gone)) (append-nil l)

-- The shutdown after a set-up that has come to its end leaves the root logger's handlers and the
-- running providers as they were before, if its own are new.
pub shutdown-configure :
    (handler : ℕ) (providers root running : List ℕ)
    → AreFresh (handler ∷ []) root
    → AreFresh providers running
    → shutdown_telemetry (
        configure_telemetry true completes handler providers
          (record { handlers = []; providers = []; root_handlers = root; running = running }))
      ≡ record { handlers = []; providers = []; root_handlers = root; running = running }
unfolding shutdown_telemetry configure_telemetry
shutdown-configure handler providers root running h p =
    rw (taken_back (handler ∷ []) root h, taken_back providers running p) refl

-- After a set-up whose instrumentation raised, the shutdown leaves its providers running.
pub shutdown-raised :
    (handler : ℕ) (providers root running : List ℕ)
    → AreFresh (handler ∷ []) root
    → shutdown_telemetry (
        configure_telemetry true raises_late handler providers
          (record { handlers = []; providers = []; root_handlers = root; running = running }))
      ≡ record {
        handlers = [];
        providers = [];
        root_handlers = root;
        running = running ++ providers;
      }
unfolding shutdown_telemetry configure_telemetry
shutdown-raised handler providers root running h =
    rw
      (
        taken_back (handler ∷ []) root h,
        without-fresh [] (running ++ providers) (nothing_gone (running ++ providers)),
      )
      refl
  where
    nothing_gone : (l : List ℕ) → AreFresh [] l
    nothing_gone [] = tt
    nothing_gone (x ∷ l) = (refl, nothing_gone l)
