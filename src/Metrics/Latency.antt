-- ===== src/Metrics/Latency.antt =====
-- stats.go: latencies, which of them are sampled, the snapshot, and a round of the logger. The
-- fields of `Metrics` with one prefix are one record `Latency`.
use cachecore.Base.{ℕ, ◌/◌, ◌%◌, Bool, true, false, none, some, leb, ◌==◌, if◌then◌else◌, []}
use cachecore.Go.Int64
use cachecore.Go.Int64.{Int64, slt}
use cachecore.Metrics.{Counters, LatencyWindow, observe, p95_p99_and_reset}

-- `samples` is the counter `...LatencySamples`.
pub record Latency : Type 0 where
  pub count : ℕ
  pub total_micros : ℕ
  pub last_p95 : ℕ
  pub last_p99 : ℕ
  pub samples : ℕ
  pub window : LatencyWindow

pub record Metrics : Type 0 where
  pub counters : Counters
  pub api_requests : ℕ
  pub api_errors : ℕ
  pub peer_http_requests : ℕ
  pub latency_sampling_enabled : Bool
  pub latency_sample_every : ℕ
  pub api : Latency
  pub group_get : Latency
  pub cache_get : Latency

abbrev pub no_latency : Latency
no_latency = record {
  count = 0;
  total_micros = 0;
  last_p95 = 0;
  last_p99 = 0;
  samples = 0;
  window = record { samples = []; cap = 0 };
}

unfoldable pub new_metrics : Metrics
new_metrics = record {
  counters = record {
    group_gets = 0;
    cache_hits = 0;
    cache_misses = 0;
    peer_loads = 0;
    local_loads = 0;
    filter_misses = 0;
  };
  api_requests = 0;
  api_errors = 0;
  peer_http_requests = 0;
  latency_sampling_enabled = true;
  latency_sample_every = 1;
  api = no_latency;
  group_get = no_latency;
  cache_get = no_latency;
}

unfoldable pub inc_api_requests : Metrics → Metrics
inc_api_requests m = record m { api_requests = Int64.add m.api_requests 1 }

unfoldable pub inc_api_errors : Metrics → Metrics
inc_api_errors m = record m { api_errors = Int64.add m.api_errors 1 }

unfoldable pub inc_peer_http_requests : Metrics → Metrics
inc_peer_http_requests m = record m { peer_http_requests = Int64.add m.peer_http_requests 1 }

-- `shouldSampleLatency`, with the counter before and after.
unfoldable pub should_sample_latency : Bool → ℕ → ℕ → ℕ × Bool
should_sample_latency enabled every counter =
    if enabled
    then (if leb every 1
        then (counter, true)
        else (let next = Int64.add counter 1 in (next, next % every == 0)))
    else (counter, false)

-- What `RecordAPILatency` and its two likes do, for a duration in nanoseconds.
unfoldable pub record_latency : Bool → ℕ → Latency → Int64 → Latency
unfolding should_sample_latency observe
record_latency enabled every l d =
    if slt d 0
    then l
    else (let us = d / 1000 in
        let sample = should_sample_latency enabled every l.samples in
        record l {
          count = Int64.add l.count 1;
          total_micros = Int64.add l.total_micros us;
          samples = sample.0;
          window = if sample.1 then observe l.window us else l.window;
        })

unfoldable pub record_api_latency : Metrics → Int64 → Metrics
unfolding record_latency
record_api_latency m d = record m {
  api = record_latency m.latency_sampling_enabled m.latency_sample_every m.api d;
}

unfoldable pub record_group_get_latency : Metrics → Int64 → Metrics
unfolding record_latency
record_group_get_latency m d = record m {
  group_get = record_latency m.latency_sampling_enabled m.latency_sample_every m.group_get d;
}

unfoldable pub record_cache_get_latency : Metrics → Int64 → Metrics
unfolding record_latency
record_cache_get_latency m d = record m {
  cache_get = record_latency m.latency_sampling_enabled m.latency_sample_every m.cache_get d;
}

unfoldable pub set_latency_sampling_enabled : Metrics → Bool → Metrics
set_latency_sampling_enabled m enabled = record m { latency_sampling_enabled = enabled }

-- What the code asks of its rate, a float64.
pub record SampleRate : Type 0 where
  -- `rate <= 0`
  pub is_off : Bool
  -- `rate >= 1`
  pub is_full : Bool
  -- `uint64(1 / rate)`
  pub inverse : ℕ

unfoldable pub set_latency_sample_rate : Metrics → SampleRate → Metrics
set_latency_sample_rate m rate =
    if rate.is_off
    then record m { latency_sampling_enabled = false }
    else (if rate.is_full
        then record m { latency_sampling_enabled = true; latency_sample_every = 1 }
        else record m {
          latency_sampling_enabled = true;
          latency_sample_every = if rate.inverse == 0 then 1 else rate.inverse;
        })

-- The part of a snapshot that is about one kind of latency.
pub record LatencySnapshot : Type 0 where
  pub count : ℕ
  pub total_micros : ℕ
  pub last_p95 : ℕ
  pub last_p99 : ℕ

pub record MetricsSnapshot : Type 0 where
  pub counters : Counters
  pub api_requests : ℕ
  pub api_errors : ℕ
  pub peer_http_requests : ℕ
  pub api : LatencySnapshot
  pub group_get : LatencySnapshot
  pub cache_get : LatencySnapshot

unfoldable pub latency_snapshot : Latency → LatencySnapshot
latency_snapshot l = record {
  count = l.count;
  total_micros = l.total_micros;
  last_p95 = l.last_p95;
  last_p99 = l.last_p99;
}

unfoldable pub snapshot : Metrics → MetricsSnapshot
unfolding latency_snapshot
snapshot m = record {
  counters = m.counters;
  api_requests = m.api_requests;
  api_errors = m.api_errors;
  peer_http_requests = m.peer_http_requests;
  api = latency_snapshot m.api;
  group_get = latency_snapshot m.group_get;
  cache_get = latency_snapshot m.cache_get;
}

-- What a round of the logger does with one kind of latency.
unfoldable pub roll_latency : (ℕ → ℕ) → (ℕ → ℕ) → Latency → Latency
unfolding p95_p99_and_reset
roll_latency ceil95 ceil99 l =
    let read = p95_p99_and_reset ceil95 ceil99 l.window in
    elim read.1 [
      | none ↦ record l { window = read.0 }
      | some (p95, p99) ↦ record l { window = read.0; last_p95 = p95; last_p99 = p99 }
    ]

-- A round of the loop of `StartLogger`, up to the text that it logs.
unfoldable pub log_round : (ℕ → ℕ) → (ℕ → ℕ) → Metrics → Metrics × MetricsSnapshot
unfolding roll_latency snapshot
log_round ceil95 ceil99 m =
    let rolled : Metrics = record m {
      api = roll_latency ceil95 ceil99 m.api;
      group_get = roll_latency ceil95 ceil99 m.group_get;
      cache_get = roll_latency ceil95 ceil99 m.cache_get;
    } in
    (rolled, snapshot rolled)

-- The interval of `StartLogger`, in nanoseconds.
unfoldable pub logger_interval : Int64 → Int64
logger_interval interval = if slt 0 interval then interval else 5000000000
