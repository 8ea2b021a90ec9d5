-- ===== src/Retry/Backoff.antt =====
-- The backoff schedule of app/retry.py: the delay after each attempt.
use symmetrical_disco.Base.{
  ℕ, zero, suc, ◌<◌, min, ◌≡◌, refl, ◌∙◌, none, some, List, [], ◌∷◌, arith, length, get_elem?,
}
use symmetrical_disco.Retry.{from_start, get_item, min_index, backoff_delay}

get_item-from_start : (l : List ℕ) (i : ℕ) → get_item l (from_start i) ≡ get_elem? l i
unfolding get_item
get_item-from_start [] i = refl
get_item-from_start (x ∷ []) zero = refl
get_item-from_start (x ∷ []) (suc i) = refl
get_item-from_start (x ∷ y ∷ l) zero = refl
get_item-from_start (x ∷ y ∷ l) (suc i) = get_item-from_start (y ∷ l) i

min_index-suc : (n k : ℕ) → min_index (suc n) (suc k) ≡ from_start (min n k)
unfolding min_index
min_index-suc n k = ground arith

backoff_delay-get_elem? :
    (n d : ℕ) (ds : List ℕ)
    → backoff_delay (suc n) (d ∷ ds) ≡ get_elem? (d ∷ ds) (min n (length ds))
unfolding backoff_delay
backoff_delay-get_elem? n d ds =
    rw (min_index-suc n (length ds)) (get_item-from_start (d ∷ ds) (min n (length ds)))

get_elem?-some : (l : List ℕ) (i : ℕ) → i < length l → (d : ℕ) × (get_elem? l i ≡ some d)
get_elem?-some [] i h = absurd (omega arith)
get_elem?-some (x ∷ l) zero h = (x, refl)
get_elem?-some (x ∷ l) (suc i) h = get_elem?-some l i (omega arith)

-- A schedule that is not empty has a delay for every attempt.
pub backoff_delay-some :
    (n d : ℕ) (ds : List ℕ) → (delay : ℕ) × (backoff_delay (suc n) (d ∷ ds) ≡ some delay)
backoff_delay-some n d ds =
    let (delay, e) = get_elem?-some (d ∷ ds) (min n (length ds)) (omega arith) in
    (delay, rw backoff_delay-get_elem? e)

pub backoff_delay-empty : (n : ℕ) → backoff_delay n [] ≡ none
unfolding backoff_delay
backoff_delay-empty n = ground arith

-- The delays of a schedule in the order of the attempts: its entries, and then its last entry again
-- and again.
abbrev pub delays : ℕ → ℕ → List ℕ → ℕ
delays zero d ds = d
delays (suc n) d [] = d
delays (suc n) d (x ∷ xs) = delays n x xs

delays-get_elem? :
    (n d : ℕ) (ds : List ℕ) → get_elem? (d ∷ ds) (min n (length ds)) ≡ some (delays n d ds)
delays-get_elem? zero d ds = let first : min zero (length ds) ≡ 0 = omega arith in rw first refl
delays-get_elem? (suc n) d [] = let first : min (suc n) 0 ≡ 0 = omega arith in rw first refl
delays-get_elem? (suc n) d (x ∷ xs) =
    let later : min (suc n) (suc (length xs)) ≡ suc (min n (length xs)) = omega arith in
    rw later (delays-get_elem? n x xs)

-- The delays after the attempts are the entries of the schedule, in order, and then its last entry
-- again and again.
pub backoff_delay-delays :
    (n d : ℕ) (ds : List ℕ) → backoff_delay (suc n) (d ∷ ds) ≡ some (delays n d ds)
backoff_delay-delays n d ds = backoff_delay-get_elem? n d ds ∙ delays-get_elem? n d ds
