-- ===== src/Tests/Flights.antt =====
-- Shared calls at work, and the theorems about them.
use cachecore.Base.{ℕ, ◌≡◌, refl, true, false, [], ◌∷◌, none, some, length, get_elem?, modify}
use cachecore.Go.Bytes.{key_dec}
use cachecore.Go.Map
use cachecore.Singleflight.{
  Result, running, panicked, Call, Group, empty, call_at, enter, enter_chan, finish, detach, send,
  send_loop, send_result, wait, set_phase, set_outcome, do_enters, chan_enters, returns, dies,
  detaches, sends, Steps, none_left, one_more,
}
use cachecore.Singleflight.Inflight.{in_flight}
use cachecore.Singleflight.Once.{single_call}
use cachecore.Singleflight.Promises.{Delivers, enter_chan-Delivers}
use cachecore.Singleflight.Outcomes.{wait-Steps, panic_blocks}
use cachecore.Tests.{a}

abbrev Flights : Type 0
Flights = Group ℕ ℕ

-- A caller of `Do` and then one of `DoChan` for the same key.
abbrev g1 : Flights
g1 = (enter a empty).0

abbrev g2 : Flights
g2 = (enter_chan a g1).0

abbrev fresh : Call ℕ ℕ
fresh = record { key = a; guarded = false; phase = running; outcome = none; chs = [] }

abbrev joined : Call ℕ ℕ
joined = record fresh { chs = 0 ∷ [] }

abbrev seven : Result ℕ ℕ
seven = record { val = some 7; err = none }

to_g2 : Steps empty g2
to_g2 = one_more (do_enters a) (one_more (chan_enters a) none_left)

-- The second caller starts no call of its own.
one_call : length g2.calls ≡ 1
unfolding enter enter_chan empty Map.lookup Map.insert key_dec
one_call = refl

call_0 : call_at g2 0 ≡ some joined
unfolding enter enter_chan empty Map.lookup Map.insert key_dec call_at
call_0 = refl

-- The number of the one call.
abbrev first : ℕ
first = 0

single_call_example : first ≡ first
unfolding in_flight
single_call_example = single_call g2 first first joined joined to_g2 call_0 call_0 refl refl refl

abbrev g3 : Flights
g3 = finish 0 seven g2

wait-Steps_example : wait 0 (enter a g3).0 ≡ some seven
unfolding enter enter_chan empty Map.lookup Map.insert key_dec call_at finish set_outcome wait
wait-Steps_example =
    wait-Steps g3 (enter a g3).0 0 seven
      (one_more (do_enters a)
        (one_more (chan_enters a) (one_more (returns 0 seven call_0 refl) none_left)))
      refl (one_more (do_enters a) none_left)

-- The function of the first caller of `Do` panics.
abbrev g4 : Flights
g4 = record g1 { calls = modify g1.calls 0 (set_phase panicked) }

call_0_alone : call_at g1 0 ≡ some fresh
unfolding enter empty Map.lookup Map.insert key_dec call_at
call_0_alone = refl

to_g4 : Steps empty g4
to_g4 = one_more (do_enters a) (one_more (dies 0 call_0_alone refl refl) none_left)

call_0_dead : call_at g4 0 ≡ some (set_phase panicked fresh)
unfolding enter empty Map.lookup Map.insert key_dec call_at
call_0_dead = refl

panic_blocks_example :
    (enter a (enter a g4).0 ≡ ((enter a g4).0, 0)) × (wait 0 (enter a g4).0 ≡ none)
unfolding set_phase
panic_blocks_example =
    panic_blocks g4 (enter a g4).0 0 (set_phase panicked fresh) to_g4 call_0_dead refl
      (one_more (do_enters a) none_left)

-- The call returns, leaves the map and sends.
abbrev detached_call : Flights
detached_call = detach 0 a g3

abbrev delivered : Flights
delivered = send 0 (0 ∷ []) seven detached_call

enter_chan-Delivers_example : Delivers delivered a 0
unfolding enter enter_chan empty Map.lookup Map.insert key_dec call_at finish detach send
    set_outcome set_phase
enter_chan-Delivers_example =
    enter_chan-Delivers g1 delivered a (one_more (do_enters a) none_left) (
      one_more (returns 0 seven call_0 refl)
        (one_more (detaches 0 refl refl) (one_more (sends 0 refl refl refl) none_left)))

-- The channel holds the result.
channel_holds_7 :
    get_elem? delivered.channels 0 ≡ some (record { buffer = seven ∷ []; closed = true })
unfolding enter enter_chan empty Map.lookup Map.insert key_dec finish detach send send_loop
    send_result set_outcome set_phase
channel_holds_7 = refl
