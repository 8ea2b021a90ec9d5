-- ===== src/Tests/Listing.antt =====
-- Pages of the sample table.
use symmetrical_disco.Base.{◌≡◌, refl, none, some, [], ◌∷◌, ◌<◌, arith, length}
use symmetrical_disco.Listing.{
  Filters, encode_cursor, list_jobs, listed, sort_by, insert_by, matches, page_of,
}
use symmetrical_disco.Listing.Walk.{all_pages, all_pages-listed}
use symmetrical_disco.Tests.Samples.{sample, sample-IsUnique, waiting_job, done_job, running_job}

abbrev of_user : Filters
of_user = record { status = none; job_type = none; priority = none; user_id = some 1 }

first_page :
    list_jobs of_user 2 none sample ≡ (running_job ∷ done_job ∷ [], some (encode_cursor 1000 8))
unfolding list_jobs listed sort_by insert_by matches page_of
first_page = refl

next_page : list_jobs of_user 2 (some (1000, 8)) sample ≡ (waiting_job ∷ [], none)
unfolding list_jobs listed sort_by insert_by matches page_of
next_page = refl

sample-length : length (listed of_user none sample) < 4
unfolding listed sort_by insert_by matches
sample-length = ground arith

all_pages-listed_example : all_pages 4 of_user 2 none sample ≡ some (listed of_user none sample)
all_pages-listed_example = all_pages-listed 4 1 of_user none sample sample-IsUnique sample-length
