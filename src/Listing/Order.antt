-- ===== src/Listing/Order.antt =====
-- The order of a listing of app/repository.py, and sorting by it.
use symmetrical_disco.Base.{
  ◌≡◌, refl, sym, ap, ◌∙◌, Bool, true, false, List, [], ◌∷◌, arith, ◌==◌, Bool-cases, inl, inr, All,
  keep, any,
}
use symmetrical_disco.Models.{Job}
use symmetrical_disco.Repository.{Table, clashes}
use symmetrical_disco.Repository.Unique.{IsUnique}
use symmetrical_disco.Listing.{newer, insert_by, sort_by}

pub newer_trans : (a b c : Job) → newer a b ≡ true → newer b c ≡ true → newer a c ≡ true
newer_trans a b c h k = ground arith

pub newer_asym : (a b : Job) → newer a b ≡ true → newer b a ≡ false
newer_asym a b h = ground arith

pub newer_irrefl : (a : Job) → newer a a ≡ false
newer_irrefl a = ground arith

newer_total : (a b : Job) → (a.id == b.id) ≡ false → newer a b ≡ false → newer b a ≡ true
newer_total a b h k = ground arith

-- Every row is newer than every row behind it.
abbrev pub IsSorted : List Job → Type 0
IsSorted [] = Unit
IsSorted (j ∷ js) = All (λ k. newer j k ≡ true) js × IsSorted js

-- Every row has an id of its own.
abbrev pub HasOwnIds : List Job → Type 0
HasOwnIds [] = Unit
HasOwnIds (j ∷ js) = All (λ (k : Job). (j.id == k.id) ≡ false) js × HasOwnIds js

pub All-map : {P Q : Job → Type 0} (l : List Job) → ((j : Job) → P j → Q j) → All P l → All Q l
All-map [] f a = tt
All-map (j ∷ l) f a = (f j a.0, All-map l f a.1)

insert_by-All :
    (P : Job → Type 0) (j : Job) (l : List Job) → P j → All P l → All P (insert_by newer j l)
unfolding insert_by
insert_by-All P j [] p a = (p, tt)
insert_by-All P j (k ∷ l) p a = elim (Bool-cases (newer j k)) [
  | inl first ↦ rw first (p, a)
  | inr behind ↦ rw behind (a.0, insert_by-All P j l p a.1)
]

pub sort_by-All : (P : Job → Type 0) (l : List Job) → All P l → All P (sort_by newer l)
unfolding sort_by
sort_by-All P [] a = tt
sort_by-All P (j ∷ l) a = insert_by-All P j (sort_by newer l) a.0 (sort_by-All P l a.1)

insert_by-IsSorted :
    (j : Job) (l : List Job)
    → All (λ (k : Job). (j.id == k.id) ≡ false) l
    → IsSorted l
    → IsSorted (insert_by newer j l)
unfolding insert_by
insert_by-IsSorted j [] own s = (tt, tt)
insert_by-IsSorted j (k ∷ l) own s = elim (Bool-cases (newer j k)) [
  | inl first ↦ rw first ((first, All-map l (λ x h. newer_trans j k x first h) s.0), s)
  | inr behind ↦ rw behind (
    insert_by-All (λ x. newer k x ≡ true) j l (newer_total j k own.0 behind) s.0,
    insert_by-IsSorted j l own.1 s.1,
  )
]

pub sort_by-IsSorted : (l : List Job) → HasOwnIds l → IsSorted (sort_by newer l)
unfolding sort_by
sort_by-IsSorted [] own = tt
sort_by-IsSorted (j ∷ l) own =
    insert_by-IsSorted j (sort_by newer l) (sort_by-All _ l own.0) (sort_by-IsSorted l own.1)

pub keep-All : (P : Job → Type 0) (q : Job → Bool) (l : List Job) → All P l → All P (keep q l)
keep-All P q [] a = tt
keep-All P q (j ∷ l) a = elim (Bool-cases (q j)) [
  | inl e ↦ rw e (a.0, keep-All P q l a.1)
  | inr e ↦ rw e (keep-All P q l a.1)
]

pub keep-HasOwnIds : (q : Job → Bool) (l : List Job) → HasOwnIds l → HasOwnIds (keep q l)
keep-HasOwnIds q [] own = tt
keep-HasOwnIds q (j ∷ l) own = elim (Bool-cases (q j)) [
  | inl e ↦ rw e (keep-All _ q l own.0, keep-HasOwnIds q l own.1)
  | inr e ↦ rw e (keep-HasOwnIds q l own.1)
]

insert_by-front :
    (j : Job) (l : List Job) → All (λ k. newer j k ≡ true) l → insert_by newer j l ≡ j ∷ l
unfolding insert_by
insert_by-front j [] a = refl
insert_by-front j (k ∷ l) a = rw (a.0) refl

keep-insert_by_kept :
    (q : Job → Bool) (j : Job) (l : List Job)
    → q j ≡ true
    → IsSorted l
    → keep q (insert_by newer j l) ≡ insert_by newer j (keep q l)
unfolding insert_by
keep-insert_by_kept q j [] e s = rw e refl
keep-insert_by_kept q j (k ∷ l) e s = elim (Bool-cases (newer j k)) [
  | inl first ↦
      let ahead = keep-All _ q (k ∷ l) (first, All-map l (λ x h. newer_trans j k x first h) s.0) in
      rw (first, e) (sym (insert_by-front j (keep q (k ∷ l)) ahead))
  | inr behind ↦ elim (Bool-cases (q k)) [
    | inl kept ↦ simp (behind, kept, keep-insert_by_kept q j l e s.1)
    | inr dropped ↦ simp (behind, dropped, keep-insert_by_kept q j l e s.1)
  ]
]

keep-insert_by_dropped :
    (q : Job → Bool) (j : Job) (l : List Job)
    → q j ≡ false
    → keep q (insert_by newer j l) ≡ keep q l
unfolding insert_by
keep-insert_by_dropped q j [] e = rw e refl
keep-insert_by_dropped q j (k ∷ l) e = elim (Bool-cases (newer j k)) [
  | inl first ↦ simp (first, e)
  | inr behind ↦ simp (behind, keep-insert_by_dropped q j l e)
]

-- To select and to sort can be done in either order.
pub keep-sort_by :
    (q : Job → Bool) (l : List Job)
    → HasOwnIds l
    → keep q (sort_by newer l) ≡ sort_by newer (keep q l)
unfolding sort_by
keep-sort_by q [] own = refl
keep-sort_by q (j ∷ l) own = elim (Bool-cases (q j)) [
  | inl kept ↦ rw kept (
      keep-insert_by_kept q j (sort_by newer l) kept (sort_by-IsSorted l own.1)
      ∙ ap (insert_by newer j) (keep-sort_by q l own.1))
  | inr dropped ↦
      rw dropped (keep-insert_by_dropped q j (sort_by newer l) dropped ∙ keep-sort_by q l own.1)
]

-- The primary key.
pub unique-HasOwnIds : (t : Table) → IsUnique t → HasOwnIds t
unique-HasOwnIds [] u = tt
unique-HasOwnIds (j ∷ t) u = (others j t u.0, unique-HasOwnIds t u.1)
  where
    others :
        (j : Job) (t : Table)
        → any (clashes j) t ≡ false
        → All (λ (k : Job). (j.id == k.id) ≡ false) t
    others j [] h = tt
    others j (k ∷ t) h = (ground arith, others j t (ground arith))
