-- ===== src/Control/Ids.antt =====
-- app/control/ids.py: identifiers that sort by the time of their making. A text is the list of its
-- bytes.
pub mod Order
pub mod Runs
use mathlib.Core.List.{reverse}
use daas_engine.Base.{
  List, Option, [], if◌then◌else◌, leb, length, none, some, suc, zero, ℕ, ◌%◌, ◌++◌, ◌+◌, ◌/◌, ◌∷◌,
}

-- `_ALPHABET`.
abbrev pub alphabet : List ℕ
alphabet =
    b'0' ∷ b'1' ∷ b'2' ∷ b'3' ∷ b'4' ∷ b'5' ∷ b'6' ∷ b'7' ∷ b'8' ∷ b'9' ∷ b'A' ∷ b'B' ∷ b'C' ∷ b'D'
    ∷ b'E' ∷ b'F' ∷ b'G' ∷ b'H' ∷ b'J' ∷ b'K' ∷ b'M' ∷ b'N' ∷ b'P' ∷ b'Q' ∷ b'R' ∷ b'S' ∷ b'T'
    ∷ b'V' ∷ b'W' ∷ b'X' ∷ b'Y' ∷ b'Z' ∷ []

-- A place of a list; 0 past its end, where the program has no place.
abbrev pub char_at : List ℕ → ℕ → ℕ
char_at [] i = 0
char_at (c ∷ cs) zero = c
char_at (c ∷ cs) (suc i) = char_at cs i

-- The loop of `_encode`, the low digit first. `& 31` and `>> 5` of a number that is not negative are
-- `% 32` and `/ 32`.
unfoldable pub chars : ℕ → ℕ → List ℕ
chars value zero = []
chars value (suc length) = char_at alphabet (value % 32) ∷ chars (value / 32) length

-- `_encode`.
unfoldable pub encode : ℕ → ℕ → List ℕ
unfolding chars
encode value length = reverse (chars value length)

-- The globals; `_last_ms` is -1 at first, here none.
pub record Clock : Type 0 where
  pub last_ms : Option ℕ
  pub last_rand : ℕ

-- `1 << 80`.
abbrev pub rand_limit : ℕ
rand_limit = 1208925819614629174706176

-- One call: the time in milliseconds, and what `secrets.randbits` gives for 79 and for 80 bits.
pub record UlidCall : Type 0 where
  pub now_ms : ℕ
  pub bits79 : ℕ
  pub bits80 : ℕ

-- The globals after a call; the new identifier is made of them.
unfoldable pub ticked : UlidCall → Clock → ℕ × ℕ
ticked call clock = elim clock.last_ms [
  | none ↦ (call.now_ms, call.bits79)
  | some last ↦
      if leb call.now_ms last
      then (if leb rand_limit (clock.last_rand + 1)
          then (last + 1, call.bits80)
          else (last, clock.last_rand + 1))
      else (call.now_ms, call.bits79)
]

-- `new_ulid`.
unfoldable pub new_ulid : UlidCall → Clock → List ℕ × Clock
unfolding ticked encode
new_ulid call clock =
    let (ms, rand) = ticked call clock in
    (encode ms 10 ++ encode rand 16, record { last_ms = some ms; last_rand = rand })

-- The globals after some calls.
unfoldable pub run_calls : List UlidCall → Clock → Clock
unfolding new_ulid
run_calls [] clock = clock
run_calls (c ∷ cs) clock = run_calls cs (new_ulid c clock).1
