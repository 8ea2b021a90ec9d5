-- ===== src/Tests/Loop.antt =====
-- Iterations of the ticker's loop over the sample table.
use symmetrical_disco.Base.{◌≡◌, refl, true, false, []}
use symmetrical_disco.Config.{ordered_streams}
use symmetrical_disco.Listing.{list_unsynced}
use symmetrical_disco.Effects.{World, ◌>>=◌, ask, query, read_clock, measure}
use symmetrical_disco.Ticker.{
  promote_due, promote_ids, reconcile_orphans, reconcile_loop, reap_stale, reap_streams, reap_pages,
}
use symmetrical_disco.Ticker.Loop.{
  Replies, start_clocks, tick, reap_due, after_reconcile, reconcile_due,
}
use symmetrical_disco.Ticker.Survival.{finished}
use symmetrical_disco.Tests.Samples.{settings, world}

-- Nothing is due in Redis.
abbrev idle : Replies
idle = record { due = []; claimed = λ s. []; fuel = 5 }

-- A minute after the start of the clock.
abbrev late : World
late = record world { now = 61000000 }

abbrev outage : World
outage = record late { redis_up = false }

idle_run : finished (tick settings idle (start_clocks 0) late).0.0 ≡ true
unfolding tick promote_due promote_ids reconcile_due after_reconcile reap_due reconcile_orphans
    reconcile_loop list_unsynced reap_stale reap_streams reap_pages ordered_streams ◌>>=◌ ask query
    read_clock measure
idle_run = refl
