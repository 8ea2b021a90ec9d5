-- ===== src/Listing/Members.antt =====
-- What the ORDER BY and the LIMIT of app/repository.py keep of the members of a list.
use symmetrical_disco.Base.{
  ℕ, zero, suc, ◌<◌, ◌≡◌, refl, ap, ◌∙◌, Bool, true, false, ◌&&◌, ◌||◌, List, [], ◌∷◌, arith, ◌==◌,
  Bool-cases, inl, inr, All, keep, any, take, length,
}
use symmetrical_disco.Models.{Job}
use symmetrical_disco.Listing.{insert_by, sort_by}
use symmetrical_disco.Listing.Order.{All-map}

module _ (before : Job → Job → Bool) where
  insert_by-All_any :
      (P : Job → Type 0) (j : Job) (l : List Job) → P j → All P l → All P (insert_by before j l)
  unfolding insert_by
  insert_by-All_any P j [] p a = (p, tt)
  insert_by-All_any P j (k ∷ l) p a = elim (Bool-cases (before j k)) [
    | inl first ↦ rw first (p, a)
    | inr behind ↦ rw behind (a.0, insert_by-All_any P j l p a.1)
  ]

  pub sort_by-All_any : (P : Job → Type 0) (l : List Job) → All P l → All P (sort_by before l)
  unfolding sort_by
  sort_by-All_any P [] a = tt
  sort_by-All_any P (j ∷ l) a =
      insert_by-All_any P j (sort_by before l) a.0 (sort_by-All_any P l a.1)

  any-insert_by :
      (p : Job → Bool) (j : Job) (l : List Job) → any p (insert_by before j l) ≡ p j || any p l
  unfolding insert_by
  any-insert_by p j [] = refl
  any-insert_by p j (k ∷ l) = elim (Bool-cases (before j k)) [
    | inl first ↦ rw first refl
    | inr behind ↦ rw (behind, any-insert_by p j l) (swap (p j) (p k) (any p l))
  ]
    where
      swap : (a b d : Bool) → (b || (a || d)) ≡ (a || (b || d))
      swap true true d = refl
      swap true false d = refl
      swap false true d = refl
      swap false false d = refl

  pub any-sort_by : (p : Job → Bool) (l : List Job) → any p (sort_by before l) ≡ any p l
  unfolding sort_by
  any-sort_by p [] = refl
  any-sort_by p (j ∷ l) =
      any-insert_by p j (sort_by before l) ∙ ap (λ b. p j || b) (any-sort_by p l)

  length-insert_by : (j : Job) (l : List Job) → length (insert_by before j l) ≡ suc (length l)
  unfolding insert_by
  length-insert_by j [] = refl
  length-insert_by j (k ∷ l) = elim (Bool-cases (before j k)) [
    | inl first ↦ rw first refl
    | inr behind ↦ rw (behind, length-insert_by j l) refl
  ]

  pub length-sort_by : (l : List Job) → length (sort_by before l) ≡ length l
  unfolding sort_by
  length-sort_by [] = refl
  length-sort_by (j ∷ l) = length-insert_by j (sort_by before l) ∙ ap suc (length-sort_by l)

pub take-All : (P : Job → Type 0) (n : ℕ) (l : List Job) → All P l → All P (take n l)
take-All P zero l a = tt
take-All P (suc n) [] a = tt
take-All P (suc n) (x ∷ l) a = (a.0, take-All P n l a.1)

-- A cut that is shorter than it may be is the whole.
pub take_all : (n : ℕ) (l : List Job) → length (take n l) < n → take n l ≡ l
take_all zero l h = absurd (omega arith)
take_all (suc n) [] h = refl
take_all (suc n) (x ∷ l) h = ap (λ k. x ∷ k) (take_all n l (omega arith))

or_true : (b : Bool) {d : Bool} → d ≡ true → (b || d) ≡ true
or_true true h = refl
or_true false h = h

-- Every member of a list that is selected is found in it by its id.
pub keep-found :
    (q : Job → Bool) (l : List Job)
    → All (λ j. any (λ r. (r.id == j.id) && q r) l ≡ true) (keep q l)
keep-found q [] = tt
keep-found q (x ∷ l) = elim (Bool-cases (q x)) [
  | inl e ↦
      let self : (x.id == x.id) ≡ true = ground arith in
      rw e (rw self refl, All-map (keep q l) (λ j h. or_true _ h) (keep-found q l))
  | inr e ↦ rw e (All-map (keep q l) (λ j h. or_true _ h) (keep-found q l))
]

pub found_itself : (l : List Job) → All (λ (j : Job). any (λ r. r.id == j.id) l ≡ true) l
found_itself [] = tt
found_itself (x ∷ l) =
    let self : (x.id == x.id) ≡ true = ground arith in
    (rw self refl, All-map l (λ j h. or_true _ h) (found_itself l))
