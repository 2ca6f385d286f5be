-- ===== src/Janitor.antt =====
-- groupcache_maintenance.go: a janitor, and how it is stopped.
use cachecore.Base.{Bool, true, false, Option, none, some, if◌then◌else◌}
use cachecore.Go.Int64.{Int64, slt}

-- `stop` is `none` for a `nil` channel, and else says whether the channel is closed.
pub record Janitor : Type 0 where
  pub interval : Int64
  pub stop : Option Bool

-- A minute, in nanoseconds, where the interval is not positive.
unfoldable pub new_janitor : Int64 → Janitor
new_janitor interval = record {
  interval = if slt 0 interval then interval else 60000000000;
  stop = some false;
}

-- `Stop`: closing a closed channel would panic, and the `select` keeps it from that.
unfoldable pub stop : Option Janitor → Option Janitor
stop none = none
stop (some j) = elim j.stop [
  | none ↦ some j
  | some true ↦ some j
  | some false ↦ some (record j { stop = some true })
]
