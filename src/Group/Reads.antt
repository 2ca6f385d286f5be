-- ===== src/Group/Reads.antt =====
-- groupcache.go: `Get` with its load, and the degradation after a wait that timed out.
use cachecore.Base.{ℕ, Option, none, some, ◌==◌, if◌then◌else◌, length, ◌>>=◌, is_some}
use cachecore.Filter.{FilterOps, rejects}
use cachecore.Go.Bytes.{Bytes, Key}
use cachecore.Go.Int64.{slt}
use cachecore.Http.Client
use cachecore.Http.Messages.{ProtoOps, Exchange}
use cachecore.Http.Pool.{HttpGetter, Picked, no_peer, nil_getter, picked, pick_peer}
use cachecore.Metrics.{
  inc_group_gets, inc_cache_hits, inc_cache_misses, inc_peer_loads, inc_local_loads,
  inc_filter_misses,
}
use cachecore.View.{ByteView, is_not_found, clone_bytes}
use cachecore.Errors.{
  Error, key_required, not_found, filter_not_found, wait_timeout, Answer, ok, err,
}
use cachecore.Group.State.{CacheOps, Group, stamp_active_value, count, keep_value, cache_negative}

-- What ends the `select` of `waitForLoad`: a result, the end of the context, or the timer.
pub data Woken : Type 0 where
  received : Answer ByteView → Woken
  cancelled : Error → Woken
  timed_out : Woken

-- How a Get goes on that has missed: its context has ended before the load, or the load that it
-- starts ends in time, or, where it waits for it, its context or the timer ends first.
pub data Course : Type 0 where
  ended : Error → Course
  in_time : Course
  context_ends : Error → Course
  timer_fires : ℕ → Course

-- The pick of `loadFromPeer` and `Increment`, with `g.peers` `nil` as no peer.
unfoldable pub pick_for : {C S : Type 0} → Group C S → Key → Picked HttpGetter
unfolding pick_peer
pick_for g key = elim g.peers [ none ↦ no_peer | some pool ↦ pick_peer pool key ]

-- `peer.Get` of the picked peer, with the request and the response of `getFromPeer`.
unfoldable pub peer_answer :
    {C S W : Type 0} ⦃p : ProtoOps W⦄
    → (Bytes → W → Exchange W)
    → Group C S
    → Key
    → Picked (Answer Bytes)
unfolding pick_for Client.get
peer_answer send g key = elim (pick_for g key) [
  | no_peer ↦ no_peer
  | nil_getter ↦ nil_getter
  | picked h ↦ picked (elim (Client.get send h (record { group = g.name; key = key; delta = 0 })) [
    | ok out ↦ ok out.value
    | err e ↦ err e
  ])
]

module _ {C S : Type 0} ⦃c : CacheOps C⦄ ⦃o : FilterOps S⦄ where
  -- `getFromPeer`, for what `peer.Get` answers.
  unfoldable pub get_from_peer :
      Group C S → Key → Answer Bytes → ℕ → ℕ → Option (Group C S × Answer ByteView)
  unfolding keep_value count inc_peer_loads stamp_active_value clone_bytes
  get_from_peer g key (err e) random now = some (count inc_peer_loads g, err e)
  get_from_peer g key (ok bytes) random now =
      let value = stamp_active_value (clone_bytes bytes) in
      do kept ← keep_value (count inc_peer_loads g) key value random now; some (kept, ok value)

  -- `loadFromPeer`; in the answer, the inner `none` is `ok == false`.
  unfoldable pub load_from_peer :
      Group C S
      → Key
      → Picked (Answer Bytes)
      → ℕ
      → ℕ
      → Option (Group C S × Option (Answer ByteView))
  unfolding get_from_peer cache_negative
  load_from_peer g key no_peer random now = some (g, none)
  load_from_peer g key nil_getter random now = none
  load_from_peer g key (picked peer) random now = do
    done ← get_from_peer g key peer random now
    elim done.1 [
      | ok v ↦ some (done.0, some (ok v))
      | err not_found ↦ do g' ← cache_negative done.0 key now; some (g', some (err not_found))
      | err _ ↦ some (done.0, none)
    ]

  -- `getLocally`; `fetched` is what the getter answers if it is asked.
  unfoldable pub get_locally :
      Group C S → Key → Answer Bytes → ℕ → ℕ → Option (Group C S × Answer ByteView)
  unfolding keep_value cache_negative count inc_filter_misses inc_local_loads stamp_active_value
      clone_bytes rejects
  get_locally g key fetched random now =
      if rejects g.filter key
      then some (count inc_filter_misses g, err (filter_not_found key))
      else elim fetched [
        | err not_found ↦ do g' ← cache_negative g key now; some (g', err not_found)
        | err e ↦ some (g, err e)
        | ok bytes ↦ do
          let value = stamp_active_value (clone_bytes bytes)
          kept ← keep_value (count inc_local_loads g) key value random now
          some (kept, ok value)
      ]

  -- The function that `load` gives to the loader.
  unfoldable pub load_fn :
      Group C S
      → Key
      → Picked (Answer Bytes)
      → Answer Bytes
      → ℕ
      → ℕ
      → Option (Group C S × Answer ByteView)
  unfolding load_from_peer get_locally
  load_fn g key peer fetched random now = do
    tried ← load_from_peer g key peer random now
    elim tried.1 [ some a ↦ some (tried.0, a) | none ↦ get_locally tried.0 key fetched random now ]

  unfoldable pub get_stale : Group C S → Key → ℕ → Option (Group C S × Option ByteView)
  unfolding count inc_cache_hits
  get_stale g key now = elim g.stale_cache [
    | none ↦ some (g, none)
    | some stale ↦
        if slt 0 g.stale_ttl
        then (do
          hit ← c.get stale key now
          let looked : Group C S = record g { stale_cache = some hit.0 }
          some (if is_some hit.1 then count inc_cache_hits looked else looked, hit.1))
        else some (g, none)
  ]

  -- `degradeAfterWaitTimeout` with `degradeFromCaches`.
  unfoldable pub degrade_after_wait_timeout :
      Group C S → Key → ℕ → Option (Group C S × Answer ByteView)
  unfolding get_stale count inc_cache_hits is_not_found
  degrade_after_wait_timeout g key now = do
    hit ← c.get g.main_cache key now
    let looked : Group C S = record g { main_cache = hit.0 }
    elim hit.1 [
      | some v ↦ some (count inc_cache_hits looked, if is_not_found v then err not_found else ok v)
      | none ↦ do
        stale ← get_stale looked key now
        some (
          stale.0,
          elim stale.1 [
            | some v ↦ if is_not_found v then err not_found else ok v
            | none ↦ err wait_timeout
          ],
        )
    ]

  unfoldable pub wait_for_load : Group C S → Key → Woken → ℕ → Option (Group C S × Answer ByteView)
  unfolding degrade_after_wait_timeout
  wait_for_load g key (received a) now = some (g, a)
  wait_for_load g key (cancelled e) now = some (g, err e)
  wait_for_load g key timed_out now = degrade_after_wait_timeout g key now

  -- `load` of a caller that starts the load: by `Do`, or by `DoChan` where there is a time to wait.
  -- A load that outlasts the wait goes on, as a step of `load_fn` of its own.
  unfoldable pub load :
      Group C S
      → Key
      → Course
      → Picked (Answer Bytes)
      → Answer Bytes
      → ℕ
      → ℕ
      → Option (Group C S × Answer ByteView)
  unfolding load_fn wait_for_load
  load g key (ended e) peer fetched random now = some (g, err e)
  load g key in_time peer fetched random now =
      if slt 0 g.singleflight_wait_ttl
      then (do
        done ← load_fn g key peer fetched random now
        wait_for_load done.0 key (received done.1) now)
      else load_fn g key peer fetched random now
  load g key (context_ends e) peer fetched random now =
      if slt 0 g.singleflight_wait_ttl
      then wait_for_load g key (cancelled e) now
      else load_fn g key peer fetched random now
  load g key (timer_fires at) peer fetched random now =
      if slt 0 g.singleflight_wait_ttl
      then wait_for_load g key timed_out at
      else load_fn g key peer fetched random now

  -- `Get` of a caller that starts the load itself.
  unfoldable pub get :
      Group C S
      → Key
      → Course
      → Picked (Answer Bytes)
      → Answer Bytes
      → ℕ
      → ℕ
      → Option (Group C S × Answer ByteView)
  unfolding load count inc_group_gets inc_cache_hits inc_cache_misses is_not_found
  get g key course peer fetched random now =
      if length key == 0 then some (g, err key_required) else (do
        hit ← c.get g.main_cache key now
        let looked : Group C S = record (count inc_group_gets g) { main_cache = hit.0 }
        elim hit.1 [
          | some v ↦
              some (count inc_cache_hits looked, if is_not_found v then err not_found else ok v)
          | none ↦ load (count inc_cache_misses looked) key course peer fetched random now
        ])
