-- ===== src/Singleflight.antt =====
-- internal/singleflight/singleflight.go. A step is what a goroutine does under the lock, or on
-- what only it holds; calls and channels are numbered in the order of their creation.
pub mod Inflight
pub mod Once
pub mod Outcomes
pub mod Delivery
pub mod Channels
pub mod Promises
use cachecore.Base.{
  ℕ, suc, ◌≡◌, Bool, true, false, List, [], ◌∷◌, ◌++◌, Option, none, some, length, get_elem?,
  modify, ◌>>=◌,
}
use cachecore.Go.Bytes.{Key}
use cachecore.Go.Map.{Map, lookup, insert, delete}

-- The outcome of a shared call. A `nil` value is `none`.
pub record Result (V E : Type 0) : Type 0 where
  pub val : Option V
  pub err : Option E

-- Where the goroutine is that runs `fn` for a call: in `fn`, after `wg.Done`, after the delete,
-- after the sends, or gone with a panic of `fn`.
pub data Phase : Type 0 where
  running : Phase
  finished : Phase
  detached : Phase
  sent : Phase
  panicked : Phase

-- The struct `call`: `outcome` is `val` and `err` once `wg` is done. `key` and `guarded` are
-- variables of the goroutine, the latter whether it runs `fn` under `safeCall`.
pub record Call (V E : Type 0) : Type 0 where
  pub key : Key
  pub guarded : Bool
  pub phase : Phase
  pub outcome : Option (Result V E)
  pub chs : List ℕ

pub record Channel (V E : Type 0) : Type 0 where
  pub buffer : List (Result V E)
  pub closed : Bool

pub record Group (V E : Type 0) : Type 0 where
  pub m : Map ℕ
  pub calls : List (Call V E)
  pub channels : List (Channel V E)

-- What `fn` does: return, or panic with a value.
pub data Outcome (V E P : Type 0) : Type 0 where
  returned : Option V → Option E → Outcome V E P
  panics : P → Outcome V E P

-- `describe` is `fmt.Errorf("singleflight panic: %v", r)`.
unfoldable pub safe_call : {V E P : Type 0} → (P → E) → Outcome V E P → Result V E
safe_call describe (returned v e) = record { val = v; err = e }
safe_call describe (panics r) = record { val = none; err = some (describe r) }

module _ {V E : Type 0} where
  unfoldable pub empty : Group V E
  empty = record { m = []; calls = []; channels = [] }

  unfoldable pub call_at : Group V E → ℕ → Option (Call V E)
  call_at g c = get_elem? g.calls c

  -- `Do` up to the unlock: the call that the caller waits for, or runs `fn` for.
  unfoldable pub enter : Key → Group V E → Group V E × ℕ
  enter key g = elim (lookup key g.m) [
    | some c ↦ (g, c)
    | none ↦ (
      record g {
        m = insert key (length g.calls) g.m;
        calls =
            g.calls
            ++ (record { key = key; guarded = false; phase = running; outcome = none; chs = [] }
                ∷ []);
      },
      length g.calls,
    )
  ]

  unfoldable pub join : ℕ → Call V E → Call V E
  join ch c = record c { chs = c.chs ++ (ch ∷ []) }

  -- `DoChan` up to its return: the channel.
  unfoldable pub enter_chan : Key → Group V E → Group V E × ℕ
  unfolding join
  enter_chan key g =
      let ch = length g.channels in
      let open_channels : List (Channel V E) =
        g.channels ++ (record { buffer = []; closed = false } ∷ []) in
      elim (lookup key g.m) [
        | some c ↦ (record g { calls = modify g.calls c (join ch); channels = open_channels }, ch)
        | none ↦ (
          record {
            m = insert key (length g.calls) g.m;
            calls =
                g.calls
                ++ (record {
                  key = key;
                  guarded = true;
                  phase = running;
                  outcome = none;
                  chs = ch ∷ [];
                }
                    ∷ []);
            channels = open_channels;
          },
          ch,
        )
      ]

  unfoldable pub set_outcome : Result V E → Call V E → Call V E
  set_outcome r c = record c { phase = finished; outcome = some r }

  unfoldable pub set_phase : Phase → Call V E → Call V E
  set_phase p c = record c { phase = p }

  -- `completeCall`, first part: the result and `c.wg.Done()`.
  unfoldable pub finish : ℕ → Result V E → Group V E → Group V E
  unfolding set_outcome
  finish c r g = record g { calls = modify g.calls c (set_outcome r) }

  -- `completeCall`, under the lock: `delete(g.m, key)`.
  unfoldable pub detach : ℕ → Key → Group V E → Group V E
  unfolding set_phase
  detach c key g = record g { m = delete key g.m; calls = modify g.calls c (set_phase detached) }

  unfoldable pub send_result : Result V E → Channel V E → Channel V E
  send_result r ch = record { buffer = ch.buffer ++ (r ∷ []); closed = true }

  -- `ch <- res` and `close(ch)` for each channel.
  unfoldable pub send_loop : Result V E → List ℕ → List (Channel V E) → List (Channel V E)
  unfolding send_result
  send_loop r [] chans = chans
  send_loop r (ch ∷ chs) chans = send_loop r chs (modify chans ch (send_result r))

  -- `completeCall`, last part.
  unfoldable pub send : ℕ → List ℕ → Result V E → Group V E → Group V E
  unfolding set_phase send_loop
  send c chs r g = record g {
    calls = modify g.calls c (set_phase sent);
    channels = send_loop r chs g.channels;
  }

  -- `c.wg.Wait()` returns once the outcome stands.
  unfoldable pub wait : ℕ → Group V E → Option (Result V E)
  unfolding call_at
  wait c g = do k ← call_at g c; k.outcome

  -- One step of some goroutine.
  pub data Step : Group V E → Group V E → Type 0 where
    do_enters : {g : Group V E} (key : Key) → Step g (enter key g).0
    chan_enters : {g : Group V E} (key : Key) → Step g (enter_chan key g).0
    returns :
        {g : Group V E} {k : Call V E} (c : ℕ) (r : Result V E)
        → call_at g c ≡ some k
        → k.phase ≡ running
        → Step g (finish c r g)
    -- A panic of `fn` in `Do` ends the goroutine before `completeCall`.
    dies :
        {g : Group V E} {k : Call V E} (c : ℕ)
        → call_at g c ≡ some k
        → k.phase ≡ running
        → k.guarded ≡ false
        → Step g (record g { calls = modify g.calls c (set_phase panicked) })
    detaches :
        {g : Group V E} {k : Call V E} (c : ℕ)
        → call_at g c ≡ some k
        → k.phase ≡ finished
        → Step g (detach c k.key g)
    sends :
        {g : Group V E} {k : Call V E} {r : Result V E} (c : ℕ)
        → call_at g c ≡ some k
        → k.phase ≡ detached
        → k.outcome ≡ some r
        → Step g (send c k.chs r g)

  -- What steps lead to, from one state on.
  pub data Steps : Group V E → Group V E → Type 0 where
    none_left : {g : Group V E} → Steps g g
    one_more : {a b c : Group V E} → Step a b → Steps b c → Steps a c
