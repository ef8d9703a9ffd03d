-- ===== src/Jobs/Bus.antt =====
-- `JobBus` and `StreamSlot` of app/control/executor.py: the open event streams, with a limit for each
-- subject and for all, and the listeners of the jobs. An `asyncio.Event` is its number and whether
-- it is set.
pub mod Laws
use daas_engine.Base.{
  Bool, List, Option, [], delete_where, false, if◌then◌else◌, leb, ltb, none, some, true,
  update_where, ℕ, ◌&&◌, ◌+◌, ◌-◌, ◌==◌, ◌||◌, ◌∷◌,
}

pub record Listener : Type 0 where
  pub job_id : ℕ
  pub event : ℕ
  pub is_set : Bool

pub record JobBus : Type 0 where
  pub events : List Listener
  pub streams : List (ℕ × ℕ)
  pub closing : Bool

pub record StreamSlot : Type 0 where
  pub key : ℕ
  pub released : Bool

-- `self._streams.get(key, 0)`.
unfoldable pub streams_of : ℕ → List (ℕ × ℕ) → ℕ
streams_of key [] = 0
streams_of key (s ∷ ss) = if s.0 == key then s.1 else streams_of key ss

-- `self._streams[key] = n`.
unfoldable pub set_streams : ℕ → ℕ → List (ℕ × ℕ) → List (ℕ × ℕ)
set_streams key n [] = (key, n) ∷ []
set_streams key n (s ∷ ss) = if s.0 == key then (key, n) ∷ ss else s ∷ set_streams key n ss

-- `sum(self._streams.values())`.
unfoldable pub active_streams : List (ℕ × ℕ) → ℕ
active_streams [] = 0
active_streams (s ∷ ss) = s.1 + active_streams ss

unfoldable pub open_stream : ℕ → ℕ → ℕ → JobBus → Option StreamSlot × JobBus
unfolding streams_of set_streams active_streams
open_stream key per_key total bus =
    if leb per_key (streams_of key bus.streams) || leb total (active_streams bus.streams)
    then (none, bus)
    else (
      some (record { key = key; released = false }),
      record bus { streams = set_streams key (streams_of key bus.streams + 1) bus.streams },
    )

-- `_release`; no key has 0 streams, so `left > 0` says that more than one was open.
unfoldable pub release_key : ℕ → JobBus → JobBus
unfolding streams_of set_streams
release_key key bus =
    if ltb 1 (streams_of key bus.streams)
    then record bus { streams = set_streams key (streams_of key bus.streams - 1) bus.streams }
    else record bus { streams = delete_where (λ (s : ℕ × ℕ). s.0 == key) bus.streams }

-- `StreamSlot.release`.
unfoldable pub release_slot : StreamSlot → JobBus → StreamSlot × JobBus
unfolding release_key
release_slot slot bus =
    if slot.released
    then (slot, bus)
    else (record slot { released = true }, release_key slot.key bus)

unfoldable pub subscribe : ℕ → ℕ → JobBus → JobBus
subscribe job_id event bus = record bus {
  events = record { job_id = job_id; event = event; is_set = false } ∷ bus.events;
}

unfoldable pub unsubscribe : ℕ → ℕ → JobBus → JobBus
unsubscribe job_id event bus = record bus {
  events = delete_where (λ (l : Listener). l.job_id == job_id && l.event == event) bus.events;
}

unfoldable pub woken : Listener → Listener
woken l = record l { is_set = true }

unfoldable pub publish : ℕ → JobBus → JobBus
unfolding woken
publish job_id bus = record bus {
  events = update_where (λ (l : Listener). l.job_id == job_id) woken bus.events;
}

unfoldable pub shutdown : JobBus → JobBus
unfolding woken
shutdown bus = record bus {
  events = update_where (λ (l : Listener). true) woken bus.events;
  closing = true;
}
