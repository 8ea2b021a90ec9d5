-- ===== src/Effects/Alone.antt =====
-- Worlds in which a process runs alone: no other process acts, and Redis stays up or stays down.
use symmetrical_disco.Base.{Bool, List, []}
use symmetrical_disco.Models.{Time}
use symmetrical_disco.Repository.{Table}
use symmetrical_disco.Effects.{World, Command, Measurement}

abbrev pub alone : Bool → Table → Time → List Command → List Measurement → World
alone up t now sent metrics = record {
  table = t;
  now = now;
  redis_up = up;
  future = [];
  sent = sent;
  metrics = metrics;
}
