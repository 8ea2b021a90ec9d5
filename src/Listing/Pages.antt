-- ===== src/Listing/Pages.antt =====
-- The pages of `list_jobs` of app/repository.py, one behind the other.
use symmetrical_disco.Base.{
  ℕ, zero, suc, ◌≤◌, ◌<◌, ◌≡◌, refl, sym, ap, ◌∙◌, Bool, true, false, ◌&&◌, Option, none, some,
  List, [], ◌∷◌, ◌++◌, arith, ltb, Bool-cases, inl, inr, All, keep, take, length,
}
use mathlib.Core.Path.{subst}
use symmetrical_disco.Models.{Job}
use symmetrical_disco.Repository.{Table}
use symmetrical_disco.Repository.Unique.{IsUnique}
use symmetrical_disco.Listing.{
  newer, key_of, Key, Filters, matches, before_cursor, get_last?, listed, sort_by, page_of,
  list_jobs, CursorText, decode_cursor,
}
use symmetrical_disco.Listing.Order.{
  newer_asym, newer_irrefl, IsSorted, sort_by-All, sort_by-IsSorted, keep-HasOwnIds, keep-sort_by,
  unique-HasOwnIds,
}

abbrev drop : ℕ → List Job → List Job
drop zero l = l
drop (suc n) [] = []
drop (suc n) (x ∷ l) = drop n l

take-drop : (n : ℕ) (l : List Job) → take n l ++ drop n l ≡ l
take-drop zero l = refl
take-drop (suc n) [] = refl
take-drop (suc n) (x ∷ l) = ap (λ k. x ∷ k) (take-drop n l)

keep_whole : (q : Job → Bool) (l : List Job) → All (λ k. q k ≡ true) l → keep q l ≡ l
keep_whole q [] a = refl
keep_whole q (x ∷ l) a = rw (a.0, keep_whole q l a.1) refl

some-injective : {x z : Job} → some x ≡ some z → x ≡ z
some-injective e = cc

last-All :
    (P : Job → Type 0) (n : ℕ) (l : List Job) {z : Job}
    → All P l
    → get_last? (take n l) ≡ some z
    → P z
last-All P zero l a e = cc
last-All P (suc n) [] a e = cc
last-All P (suc zero) (x ∷ l) a e = let it : x ≡ _ = some-injective e in subst P it a.0
last-All P (suc (suc n)) (x ∷ []) a e = let it : x ≡ _ = some-injective e in subst P it a.0
last-All P (suc (suc n)) (x ∷ y ∷ l) a e = last-All P (suc n) (y ∷ l) a.1 e

-- The rows behind the last one of a page are those that come after it in the order.
keep-behind :
    (n : ℕ) (l : List Job) {z : Job}
    → IsSorted l
    → get_last? (take n l) ≡ some z
    → keep (newer z) l ≡ drop n l
keep-behind zero l s e = cc
keep-behind (suc n) [] s e = refl
keep-behind (suc zero) (x ∷ l) s e =
    subst (λ (z : Job). keep (newer z) (x ∷ l) ≡ l) (some-injective e)
      (rw (newer_irrefl x) (keep_whole (newer x) l s.0))
keep-behind (suc (suc n)) (x ∷ []) s e =
    subst (λ (z : Job). keep (newer z) (x ∷ []) ≡ []) (some-injective e) (rw (newer_irrefl x) refl)
keep-behind (suc (suc n)) (x ∷ y ∷ l) {z} s e =
    let ahead : newer x z ≡ true = last-All (λ k. newer x k ≡ true) (suc n) (y ∷ l) s.0 e in
    rw (newer_asym x z ahead) (keep-behind (suc n) (y ∷ l) s.1 e)

keep-keep :
    (p q r : Job → Bool) (l : List Job)
    → ((j : Job) → p j ≡ q j && r j)
    → keep p l ≡ keep q (keep r l)
keep-keep p q r [] h = refl
keep-keep p q r (x ∷ l) h = elim (Bool-cases (r x)) [
  | inl e ↦ elim (Bool-cases (q x)) [
    | inl d ↦ simp (h x, e, d, keep-keep p q r l h)
    | inr d ↦ simp (h x, e, d, keep-keep p q r l h)
  ]
  | inr e ↦ elim (Bool-cases (q x)) [
    | inl d ↦ simp (h x, e, d, keep-keep p q r l h)
    | inr d ↦ simp (h x, e, d, keep-keep p q r l h)
  ]
]

keep-sat : (q : Job → Bool) (l : List Job) → All (λ j. q j ≡ true) (keep q l)
keep-sat q [] = tt
keep-sat q (x ∷ l) = elim (Bool-cases (q x)) [
  | inl e ↦ rw e (e, keep-sat q l)
  | inr e ↦ rw e (keep-sat q l)
]

before_cursor-newer :
    (c : Option Key) (z j : Job)
    → before_cursor c z ≡ true
    → newer z j ≡ true
    → before_cursor c j ≡ true
before_cursor-newer none z j h k = refl
before_cursor-newer (some c) z j h k = ground arith

right_of : (a b : Bool) → (a && b) ≡ true → b ≡ true
right_of true b h = h
right_of false b h = cc

-- The filter of a following page, by that of the page before.
next_filter :
    (m : Bool) (c : Option Key) (z j : Job)
    → before_cursor c z ≡ true
    → (m && newer z j) ≡ (newer z j && (m && before_cursor c j))
next_filter true c z j h = elim (Bool-cases (newer z j)) [
  | inl e ↦ simp (e, before_cursor-newer c z j h e)
  | inr e ↦ simp e
]
next_filter false c z j h = elim (Bool-cases (newer z j)) [ inl e ↦ simp e | inr e ↦ simp e ]

-- The listing from the last row of a page on is the rest of the listing that the page was cut from.
listed-behind :
    (f : Filters) (c : Option Key) (n : ℕ) (t : Table) {z : Job}
    → IsUnique t
    → get_last? (take n (listed f c t)) ≡ some z
    → listed f (some (key_of z)) t ≡ drop n (listed f c t)
unfolding listed
listed-behind f c n t {z} u e =
    let shown : Job → Bool = λ j. matches f j && before_cursor c j in
    let own = unique-HasOwnIds t u in
    let passes : shown z ≡ true =
      last-All (λ j. shown j ≡ true) n (listed f c t)
        (sort_by-All (λ j. shown j ≡ true) (keep shown t) (keep-sat shown t)) e in
    ap (sort_by newer) (
      keep-keep _ (newer z) shown t
        (λ j. next_filter (matches f j) c z j (right_of (matches f z) (before_cursor c z) passes)))
    ∙ sym (keep-sort_by (newer z) (keep shown t) (keep-HasOwnIds shown t own))
    ∙ keep-behind n (listed f c t) (sort_by-IsSorted (keep shown t) (keep-HasOwnIds shown t own)) e

take-take : (n : ℕ) (l : List Job) → take n (take (suc n) l) ≡ take n l
take-take zero l = refl
take-take (suc n) [] = refl
take-take (suc n) (x ∷ l) = ap (λ k. x ∷ k) (take-take n l)

take_short : (n : ℕ) (l : List Job) → length (take (suc n) l) ≤ n → take (suc n) l ≡ l
take_short n [] h = refl
take_short zero (x ∷ l) h = absurd (omega arith)
take_short (suc n) (x ∷ l) h = ap (λ k. x ∷ k) (take_short n l (omega arith))

length-take_long : (n : ℕ) (l : List Job) → n < length (take (suc n) l) → length (take n l) ≡ n
length-take_long zero l h = refl
length-take_long (suc n) [] h = absurd (omega arith)
length-take_long (suc n) (x ∷ l) h = ap suc (length-take_long n l (omega arith))

last-some : (x : Job) (l : List Job) → (z : Job) × (get_last? (x ∷ l) ≡ some z)
last-some x [] = (x, refl)
last-some x (y ∷ l) = last-some y l

last_of_page :
    (n : ℕ) (l : List Job)
    → suc n < length (take (suc (suc n)) l)
    → (z : Job) × (get_last? (take (suc n) l) ≡ some z)
last_of_page n [] h = absurd (omega arith)
last_of_page n (x ∷ l) h = last-some x (take n l)

-- A page of a listing, with the cursor under it, if there is one.
pub data Page (f : Filters) (c : Option Key) (limit : ℕ) (t : Table)
    : List Job × Option CursorText → Type 0 where
  is_last :
      {rows : List Job} → rows ≡ listed f c t → length rows ≤ limit → Page f c limit t (rows, none)
  has_next :
      (k : Key) {rows : List Job} {text : CursorText}
      → decode_cursor text ≡ some k
      → length rows ≡ limit
      → rows ++ listed f (some k) t ≡ listed f c t
      → Page f c limit t (rows, some text)

page_of-Page :
    (f : Filters) (c : Option Key) (n : ℕ) (t : Table)
    → IsUnique t
    → Page f c (suc n) t (page_of (suc n) (take (suc (suc n)) (listed f c t)))
unfolding page_of
page_of-Page f c n t u =
    elim (Bool-cases (ltb (suc n) (length (take (suc (suc n)) (listed f c t))))) [
      | inl more ↦
          let (z, e) = last_of_page n (listed f c t) (ground arith) in
          rw (more, take-take (suc n) (listed f c t), e)
            (has_next (key_of z) refl (length-take_long (suc n) (listed f c t) (ground arith))
              (rw (listed-behind f c (suc n) t u e) (take-drop (suc n) (listed f c t))))
      | inr all_here ↦
          let whole = take_short (suc n) (listed f c t) (ground arith) in
          let short : length (take (suc (suc n)) (listed f c t)) ≤ suc n = ground arith in
          rw (all_here, whole) (is_last refl (rw whole at short))
    ]

-- A page without a cursor holds the whole rest of the listing; one with a cursor is full, and with
-- the listing from its cursor on it makes up the listing: no row is left out or shown twice.
pub list_jobs-Page :
    (f : Filters) (c : Option Key) (n : ℕ) (t : Table)
    → IsUnique t
    → Page f c (suc n) t (list_jobs f (suc n) c t)
unfolding list_jobs
list_jobs-Page f c n t u = page_of-Page f c n t u
