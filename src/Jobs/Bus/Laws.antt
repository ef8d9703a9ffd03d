-- ===== src/Jobs/Bus/Laws.antt =====
-- The limits of the event streams of app/control/executor.py, and what a released stream gives back.
use daas_engine.Base.{
  ==→eq, Bool-cases, List, [], ap, arith, delete_where, if◌then◌else◌, inl, inr, is_some, ltb, refl,
  true, ℕ, ◌+◌, ◌-◌, ◌==◌, ◌∙◌, ◌∷◌, ◌≡◌, ◌≤◌,
}
use daas_engine.Jobs.Bus.{JobBus, active_streams, open_stream, release_key, set_streams, streams_of}

streams_of-set :
    (key n k : ℕ) (ss : List (ℕ × ℕ))
    → streams_of k (set_streams key n ss) ≡ (if key == k then n else streams_of k ss)
unfolding streams_of set_streams
streams_of-set key n k [] = refl
streams_of-set key n k (s ∷ ss) = ground (arith, streams_of-set key n k ss)

streams_of-delete :
    (key k : ℕ) (ss : List (ℕ × ℕ))
    → streams_of k (delete_where (λ (s : ℕ × ℕ). s.0 == key) ss)
      ≡ (if key == k then 0 else streams_of k ss)
unfolding streams_of delete_where
streams_of-delete key k [] = ground arith
streams_of-delete key k (s ∷ ss) = ground (arith, streams_of-delete key k ss)

active_streams-add :
    (key : ℕ) (ss : List (ℕ × ℕ))
    → active_streams (set_streams key (streams_of key ss + 1) ss) ≡ active_streams ss + 1
unfolding streams_of set_streams active_streams
active_streams-add key [] = refl
active_streams-add key (s ∷ ss) = ground (arith, active_streams-add key ss)

-- Where a subject has at most `per_key` streams and all have at most `total`, `open_stream` for any
-- subject keeps both.
pub open_stream-limits :
    (key per_key total k : ℕ) (bus : JobBus)
    → streams_of k bus.streams ≤ per_key
    → active_streams bus.streams ≤ total
    → (streams_of k (open_stream key per_key total bus).1.streams ≤ per_key)
      × (active_streams (open_stream key per_key total bus).1.streams ≤ total)
unfolding open_stream
open_stream-limits key per_key total k bus h t = ground (
  arith,
  streams_of-set key (streams_of key bus.streams + 1) k bus.streams,
  active_streams-add key bus.streams,
  ==→eq key k,
)

release_key-streams_of :
    (key k : ℕ) (bus : JobBus)
    → streams_of k (release_key key bus).streams
      ≡ (if key == k then streams_of key bus.streams - 1 else streams_of k bus.streams)
unfolding release_key
release_key-streams_of key k bus = elim (Bool-cases (ltb 1 (streams_of key bus.streams))) [
  | inl l ↦ rw (l, release_key) (streams_of-set key (streams_of key bus.streams - 1) k bus.streams)
  | inr l ↦ rw (l, release_key) (streams_of-delete key k bus.streams ∙ ground (arith, l))
]

opened :
    (key per_key total : ℕ) (bus : JobBus)
    → is_some (open_stream key per_key total bus).0 ≡ true
    → (open_stream key per_key total bus).1.streams
      ≡ set_streams key (streams_of key bus.streams + 1) bus.streams
unfolding open_stream
opened key per_key total bus e = ground (arith, e)

-- A stream that was opened and is released gives every subject back the number of streams it had.
release_key-open_stream :
    (key per_key total k : ℕ) (bus : JobBus)
    → is_some (open_stream key per_key total bus).0 ≡ true
    → streams_of k (release_key key (open_stream key per_key total bus).1).streams
      ≡ streams_of k bus.streams
release_key-open_stream key per_key total k bus e = ground (
  arith,
  release_key-streams_of key k (open_stream key per_key total bus).1,
  opened key per_key total bus e,
  streams_of-set key (streams_of key bus.streams + 1) k bus.streams,
  streams_of-set key (streams_of key bus.streams + 1) key bus.streams,
  ap (streams_of key) (opened key per_key total bus e),
  ap (streams_of k) (opened key per_key total bus e),
  ==→eq key k,
)
