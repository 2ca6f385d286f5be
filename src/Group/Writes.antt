-- ===== src/Group/Writes.antt =====
-- groupcache.go: `Increment` and `Invalidate`.
use cachecore.Base.{ℕ, List, [], Option, none, some, ◌==◌, if◌then◌else◌, length, ◌>>=◌}
use cachecore.Filter.{FilterOps}
use cachecore.Go.Bytes.{Bytes, Key}
use cachecore.Go.Int64.{Int64}
use cachecore.Go.Numbers.{format_int}
use cachecore.Http.Client
use cachecore.Http.Messages.{ProtoOps, Exchange}
use cachecore.Http.Pool.{HttpGetter, HttpPool, no_peer, nil_getter, picked}
use cachecore.Group.Reads.{pick_for}
use cachecore.Store.{failed, counted, parse_numeric_value}
use cachecore.Errors.{Error, key_required, non_numeric, Answer, ok, err}
use cachecore.Group.State.{
  CacheOps, Group, next_ttl, stamp_active_value, record_stale, add_to_filter, keep_value,
}

-- `none` is the panic of a second call.
unfoldable pub register_peers : {C S : Type 0} → Group C S → HttpPool → Option (Group C S)
register_peers g pool = elim g.peers [
  | none ↦ some (record g { peers = some pool })
  | some old ↦ none
]

unfoldable pub increment_from_peer :
    {W : Type 0} ⦃p : ProtoOps W⦄
    → (Bytes → W → Exchange W)
    → Key
    → HttpGetter
    → Key
    → Int64
    → Answer Int64
unfolding Client.increment parse_numeric_value
increment_from_peer send name peer key delta =
    elim (Client.increment send peer (record { group = name; key = key; delta = delta })) [
      | err e ↦ err e
      | ok out ↦ elim (parse_numeric_value out.value) [ none ↦ err non_numeric | some n ↦ ok n ]
    ]

module _ {C S : Type 0} ⦃c : CacheOps C⦄ ⦃o : FilterOps S⦄ where
  -- `incrementLocally`; `backend` is what the incrementer answers, `none` where there is none.
  unfoldable pub increment_locally :
      Group C S
      → Key
      → Int64
      → Option Error
      → Option (Answer Int64)
      → ℕ
      → ℕ
      → ℕ
      → Option (Group C S × Answer Int64)
  unfolding next_ttl keep_value record_stale add_to_filter stamp_active_value
  increment_locally g key delta failure backend random now later =
      if length key == 0 then some (g, err key_required) else elim failure [
        | some e ↦ some (g, err e)
        | none ↦ elim backend [
          | some (err e) ↦ some (g, err e)
          | some (ok next) ↦ do
            kept ← keep_value g key (stamp_active_value (format_int next)) random now
            some (kept, ok next)
          | none ↦ do
            let ttl = next_ttl g.cache_ttl g.cache_ttl_jitter random
            done ← c.increment g.main_cache key delta ttl (some stamp_active_value) now later
            let counted_in : Group C S = record g { main_cache = done.0 }
            elim done.1 [
              | failed e ↦ some (counted_in, err non_numeric)
              | counted next ↦ do
                staled ←
                    record_stale counted_in key (stamp_active_value (format_int next)) ttl later
                some (add_to_filter staled key, ok next)
            ]
        ]
      ]

  unfoldable pub invalidate_local : Group C S → Key → Option (Group C S)
  invalidate_local g key = do
    cache ← c.remove g.main_cache key
    elim g.stale_cache [
      | none ↦ some (record g { main_cache = cache })
      | some stale ↦ do
        stale' ← c.remove stale key
        some (record g { main_cache = cache; stale_cache = some stale' })
    ]

-- The methods that speak to other peers, over the transport `send`.
module _ {C S W : Type 0} ⦃c : CacheOps C⦄ ⦃o : FilterOps S⦄ ⦃p : ProtoOps W⦄
    (send : Bytes → W → Exchange W) where
  unfoldable pub increment :
      Group C S
      → Key
      → Int64
      → Option Error
      → Option (Answer Int64)
      → ℕ
      → ℕ
      → ℕ
      → Option (Group C S × Answer Int64)
  unfolding pick_for increment_from_peer increment_locally
  increment g key delta failure backend random now later =
      if length key == 0 then some (g, err key_required) else elim failure [
        | some e ↦ some (g, err e)
        | none ↦ elim (pick_for g key) [
          | picked peer ↦ some (g, increment_from_peer send g.name peer key delta)
          | nil_getter ↦ none
          | no_peer ↦ increment_locally g key delta none backend random now later
        ]
      ]

  -- `Invalidate`, with the peers that it asks.
  unfoldable pub invalidate : Group C S → Key → Option (Group C S × List HttpGetter)
  unfolding invalidate_local Client.broadcast_invalidate
  invalidate g key = do
    g' ← invalidate_local g key
    some (
      g',
      elim g.peers [
        | none ↦ []
        | some pool ↦
            (Client.broadcast_invalidate send pool
              (record { group = g.name; key = key; delta = 0 })).0
      ],
    )
