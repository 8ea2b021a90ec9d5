-- ===== src/Observability/Liveness.antt =====
-- The dict of `live_worker_count` of app/observability.py: its names, and which are under the cutoff.
use symmetrical_disco.Base.{
  ℕ, ◌≡◌, refl, ap, ◌∙◌, String, Bool, true, false, ◌||◌, ◌&&◌, List, [], ◌∷◌, ◌++◌, ltb,
  if◌then◌else◌, any, str_eq, eq_iff, arith, Bool-cases, inl, inr,
}
use symmetrical_disco.Observability.{with_idle, min_idle_rows}

abbrev pub Row : Type 0
Row = String × ℕ

-- The rows of all streams, one stream behind the other.
abbrev pub all_rows : List (List Row) → List Row
all_rows [] = []
all_rows (rows ∷ streams) = rows ++ all_rows streams

-- A row of that name under the cutoff.
abbrev pub is_live : ℕ → List Row → String → Bool
is_live cutoff rows name = any (λ r. str_eq r.0 name && ltb r.1 cutoff) rows

-- The names of the rows, each once.
abbrev pub add_name : String → List String → List String
add_name name [] = name ∷ []
add_name name (n ∷ ns) = if str_eq n name then n ∷ ns else n ∷ add_name name ns

abbrev pub add_names : List String → List Row → List String
add_names ns [] = ns
add_names ns (r ∷ rows) = add_names (add_name r.0 ns) rows

abbrev pub names : List Row → List String
names [] = []
names (e ∷ d) = e.0 ∷ names d

names-with_idle :
    (name : String) (idle : ℕ) (d : List Row)
    → names (with_idle name idle d) ≡ add_name name (names d)
names-with_idle name idle [] = refl
names-with_idle name idle ((n, least) ∷ d) = elim (Bool-cases (str_eq n name)) [
  | inl e ↦ simp e
  | inr e ↦ simp (e, names-with_idle name idle d)
]

pub names-min_idle_rows :
    (rows d : List Row) → names (min_idle_rows d rows) ≡ add_names (names d) rows
unfolding min_idle_rows
names-min_idle_rows [] d = refl
names-min_idle_rows ((name, idle) ∷ rows) d =
    names-min_idle_rows rows (with_idle name idle d)
    ∙ ap (λ ns. add_names ns rows) (names-with_idle name idle d)

pub or_swap : (a b d : Bool) → (b || (a || d)) ≡ (a || (b || d))
or_swap true true d = refl
or_swap true false d = refl
or_swap false true d = refl
or_swap false false d = refl

-- The smaller of two idle times is under the cutoff if one of them is.
smaller_live :
    (b x : Bool) (idle least cutoff : ℕ)
    → ((b && ltb (if ltb idle least then idle else least) cutoff) || x)
      ≡ ((b && ltb idle cutoff) || ((b && ltb least cutoff) || x))
smaller_live true true idle least cutoff = ground arith
smaller_live true false idle least cutoff = ground arith
smaller_live false x idle least cutoff = refl

live-with_idle :
    (cutoff : ℕ) (name other : String) (idle : ℕ) (d : List Row)
    → is_live cutoff (with_idle name idle d) other
      ≡ ((str_eq name other && ltb idle cutoff) || is_live cutoff d other)
live-with_idle cutoff name other idle [] = refl
live-with_idle cutoff name other idle ((n, least) ∷ d) = elim (Bool-cases (str_eq n name)) [
  | inl e ↦ rw e (
      smaller_live (str_eq n other) (is_live cutoff d other) idle least cutoff
      ∙ ap
          (λ b.
            (b && ltb idle cutoff)
            || ((str_eq n other && ltb least cutoff) || is_live cutoff d other))
          (ap (λ m. str_eq m other) ((eq_iff n name).0 e)))
  | inr e ↦
      rw (e, live-with_idle cutoff name other idle d)
        (or_swap (str_eq name other && ltb idle cutoff) (str_eq n other && ltb least cutoff)
          (is_live cutoff d other))
]

pub live-min_idle_rows :
    (cutoff : ℕ) (other : String) (rows d : List Row)
    → is_live cutoff (min_idle_rows d rows) other
      ≡ (is_live cutoff rows other || is_live cutoff d other)
unfolding min_idle_rows
live-min_idle_rows cutoff other [] d = refl
live-min_idle_rows cutoff other ((name, idle) ∷ rows) d =
    live-min_idle_rows cutoff other rows (with_idle name idle d)
    ∙ ap (λ b. is_live cutoff rows other || b) (live-with_idle cutoff name other idle d)
    ∙ or_shift (is_live cutoff rows other) (str_eq name other && ltb idle cutoff)
        (is_live cutoff d other)
  where
    or_shift : (a b d : Bool) → (a || (b || d)) ≡ ((b || a) || d)
    or_shift true true d = refl
    or_shift true false d = refl
    or_shift false true d = refl
    or_shift false false d = refl
