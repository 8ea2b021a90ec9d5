-- ===== src/Listing/Walk.antt =====
-- A client that follows the cursors of app/cursor.py from page to page.
use symmetrical_disco.Base.{
  ℕ, zero, suc, ◌+◌, ◌<◌, ◌≡◌, ap, Option, none, some, List, [], ◌∷◌, ◌++◌, arith, length,
}
use symmetrical_disco.Models.{Job}
use symmetrical_disco.Repository.{Table}
use symmetrical_disco.Repository.Unique.{IsUnique}
use symmetrical_disco.Listing.{Key, Filters, listed, list_jobs, CursorText, decode_cursor}
use symmetrical_disco.Listing.Pages.{Page, is_last, has_next, list_jobs-Page}

abbrev behind : List Job → Option (List Job) → Option (List Job)
behind rows none = none
behind rows (some others) = some (rows ++ others)

abbrev at_key : List Job → (Key → Option (List Job)) → Option Key → Option (List Job)
at_key rows rest none = none
at_key rows rest (some k) = behind rows (rest k)

abbrev then_follow : (Key → Option (List Job)) → List Job × Option CursorText → Option (List Job)
then_follow rest (rows, none) = some rows
then_follow rest (rows, some text) = at_key rows rest (decode_cursor text)

-- The pages that the client gets, put together; `none` says that the fuel ran out.
unfoldable pub all_pages : ℕ → Filters → ℕ → Option Key → Table → Option (List Job)
all_pages zero f limit c t = none
all_pages (suc fuel) f limit c t =
    then_follow (λ k. all_pages fuel f limit (some k) t) (list_jobs f limit c t)

length-append : (rows k : List Job) → length (rows ++ k) ≡ length rows + length k
length-append [] k = omega arith
length-append (r ∷ rows) k = omega (arith, length-append rows k)

shorter :
    (rows k : List Job) (n : ℕ) {l : List Job}
    → length rows ≡ suc n
    → rows ++ k ≡ l
    → length k < length l
shorter rows k n full e = let whole = ap length e in omega (arith, length-append rows k)

then_follow-Page :
    (f : Filters) (c : Option Key) (n : ℕ) (t : Table) (page : List Job × Option CursorText)
    (rest : Key → Option (List Job))
    → Page f c (suc n) t page
    → ((k : Key)
        → length (listed f (some k) t) < length (listed f c t)
        → rest k ≡ some (listed f (some k) t))
    → then_follow rest page ≡ some (listed f c t)
then_follow-Page f c n t (rows, none) rest (is_last e b) go = ap some e
then_follow-Page f c n t (rows, some text) rest (has_next k d full e) go =
    rw (d, go k (shorter rows (listed f (some k) t) n full e)) (ap some e)

-- A client that follows the cursors gets the whole listing, each row once and in order, and needs at
-- most as many pages as the listing has rows, and one more.
pub all_pages-listed :
    (fuel n : ℕ) (f : Filters) (c : Option Key) (t : Table)
    → IsUnique t
    → length (listed f c t) < fuel
    → all_pages fuel f (suc n) c t ≡ some (listed f c t)
unfolding all_pages
all_pages-listed zero n f c t u h = absurd (omega arith)
all_pages-listed (suc fuel) n f c t u h =
    then_follow-Page f c n t (list_jobs f (suc n) c t) _ (list_jobs-Page f c n t u)
      (λ k less. all_pages-listed fuel n f (some k) t u (omega arith))
