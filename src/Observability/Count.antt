-- ===== src/Observability/Count.antt =====
-- `live_worker_count` of app/observability.py against the rows that it reads.
use symmetrical_disco.Base.{
  ℕ, suc, ◌≡◌, refl, sym, ap, ◌∙◌, String, Bool, true, false, ◌||◌, List, [], ◌∷◌, ◌++◌, ltb,
  if◌then◌else◌, length, keep, All, str_eq, eq_iff, Bool-cases, inl, inr,
}
use mathlib.Core.Path.{subst}
use symmetrical_disco.Observability.{min_idle_rows, min_idle, live_worker_count}
use symmetrical_disco.Observability.Liveness.{
  Row, all_rows, is_live, add_name, add_names, names, names-min_idle_rows, live-min_idle_rows,
}

str_eq_sym : (a b : String) → str_eq a b ≡ false → str_eq b a ≡ false
str_eq_sym a b h = elim (Bool-cases (str_eq b a)) [
  | inl e ↦ let back : str_eq a b ≡ true = (eq_iff a b).1 (sym ((eq_iff b a).0 e)) in cc
  | inr e ↦ e
]

abbrev IsDistinct : List String → Type 0
IsDistinct [] = Unit
IsDistinct (n ∷ ns) = All (λ m. str_eq m n ≡ false) ns × IsDistinct ns

add_name-All :
    (P : String → Type 0) (name : String) (ns : List String)
    → P name
    → All P ns
    → All P (add_name name ns)
add_name-All P name [] p a = (p, tt)
add_name-All P name (n ∷ ns) p a = elim (Bool-cases (str_eq n name)) [
  | inl e ↦ rw e a
  | inr e ↦ rw e (a.0, add_name-All P name ns p a.1)
]

add_name-IsDistinct :
    (name : String) (ns : List String) → IsDistinct ns → IsDistinct (add_name name ns)
add_name-IsDistinct name [] u = (tt, tt)
add_name-IsDistinct name (n ∷ ns) u = elim (Bool-cases (str_eq n name)) [
  | inl e ↦ rw e u
  | inr e ↦ rw e (
    add_name-All (λ m. str_eq m n ≡ false) name ns (str_eq_sym n name e) u.0,
    add_name-IsDistinct name ns u.1,
  )
]

add_names-IsDistinct :
    (rows : List Row) (ns : List String) → IsDistinct ns → IsDistinct (add_names ns rows)
add_names-IsDistinct [] ns u = u
add_names-IsDistinct (r ∷ rows) ns u =
    add_names-IsDistinct rows (add_name r.0 ns) (add_name-IsDistinct r.0 ns u)

keep-same :
    (p q : String → Bool) (ns : List String) → All (λ n. p n ≡ q n) ns → keep p ns ≡ keep q ns
keep-same p q [] a = refl
keep-same p q (n ∷ ns) a = rw (a.0, keep-same p q ns a.1) refl

not_live :
    (cutoff : ℕ) (n : String) (d : List Row)
    → All (λ m. str_eq m n ≡ false) (names d)
    → is_live cutoff d n ≡ false
not_live cutoff n [] a = refl
not_live cutoff n (e ∷ d) a = rw a.0 (not_live cutoff n d a.1)

str_eq_refl : (n : String) → str_eq n n ≡ true
str_eq_refl n = (eq_iff n n).1 refl

-- An entry in front of others of other names says nothing of them.
others_live :
    (cutoff : ℕ) (e : Row) (d : List Row) (ns : List String)
    → All (λ m. str_eq m e.0 ≡ false) ns
    → All (λ n. is_live cutoff (e ∷ d) n ≡ is_live cutoff d n) ns
others_live cutoff e d [] a = tt
others_live cutoff e d (n ∷ ns) a = (rw (str_eq_sym n e.0 a.0) refl, others_live cutoff e d ns a.1)

or_false : (b : Bool) → (b || false) ≡ b
or_false true = refl
or_false false = refl

count_one :
    (b c : Bool) (e : Row) (n : String) (xs : List Row) (ys : List String)
    → c ≡ b
    → length xs ≡ length ys
    → length (if b then e ∷ xs else xs) ≡ length (if c then n ∷ ys else ys)
count_one true true e n xs ys h k = ap suc k
count_one true false e n xs ys h k = cc
count_one false true e n xs ys h k = cc
count_one false false e n xs ys h k = k

count-names :
    (cutoff : ℕ) (d : List Row)
    → IsDistinct (names d)
    → length (keep (λ e. ltb e.1 cutoff) d) ≡ length (keep (is_live cutoff d) (names d))
count-names cutoff [] u = refl
count-names cutoff (e ∷ d) u =
    let head : is_live cutoff (e ∷ d) e.0 ≡ ltb e.1 cutoff =
      rw (str_eq_refl e.0, not_live cutoff e.0 d u.0) (or_false (ltb e.1 cutoff)) in
    let rest =
      keep-same (is_live cutoff (e ∷ d)) (is_live cutoff d) (names d)
        (others_live cutoff e d (names d) u.0) in
    count_one (ltb e.1 cutoff) (is_live cutoff (e ∷ d) e.0) e e.0 _ _ head
      (count-names cutoff d u.1 ∙ ap length (sym rest))

everywhere :
    {p q : String → Bool}
    → ((n : String) → p n ≡ q n)
    → (ns : List String) → All (λ n. p n ≡ q n) ns
everywhere h [] = tt
everywhere h (n ∷ ns) = (h n, everywhere h ns)

append-min_idle_rows :
    (a b d : List Row) → min_idle_rows d (a ++ b) ≡ min_idle_rows (min_idle_rows d a) b
unfolding min_idle_rows
append-min_idle_rows [] b d = refl
append-min_idle_rows ((name, idle) ∷ a) b d = append-min_idle_rows a b _

min_idle-all_rows :
    (streams : List (List Row)) (d : List Row)
    → min_idle d streams ≡ min_idle_rows d (all_rows streams)
unfolding min_idle
min_idle-all_rows [] d = refl
min_idle-all_rows (rows ∷ streams) d =
    min_idle-all_rows streams (min_idle_rows d rows)
    ∙ sym (append-min_idle_rows rows (all_rows streams) d)

-- The count is the number of the names in the replies, each once, that have a row under the cutoff in
-- one of the streams.
pub live_worker_count-names :
    (streams : List (List Row)) (cutoff : ℕ)
    → live_worker_count streams cutoff
      ≡ length (keep (is_live cutoff (all_rows streams)) (add_names [] (all_rows streams)))
unfolding live_worker_count
live_worker_count-names streams cutoff =
    let rows = all_rows streams in
    let distinct =
      subst IsDistinct (sym (names-min_idle_rows rows [])) (add_names-IsDistinct rows [] tt) in
    ap (λ (d : List Row). length (keep (λ e. ltb e.1 cutoff) d)) (min_idle-all_rows streams [])
    ∙ count-names cutoff (min_idle_rows [] rows) distinct
    ∙ ap length (
        keep-same (is_live cutoff (min_idle_rows [] rows)) (is_live cutoff rows)
          (names (min_idle_rows [] rows))
          (everywhere (λ n. live-min_idle_rows cutoff n rows [] ∙ or_false (is_live cutoff rows n))
            (names (min_idle_rows [] rows))))
    ∙ ap (λ ns. length (keep (is_live cutoff rows) ns)) (names-min_idle_rows rows [])
