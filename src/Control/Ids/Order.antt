-- ===== src/Control/Ids/Order.antt =====
-- The order of the identifiers of app/control/ids.py.
use mathlib.Core.List.{reverse-append}
use daas_engine.Base.{
  ==_refl, Bool, List, [], ap, arith, false, inl, inr, length, ltb, refl, suc, sym, true, zero, ℕ,
  ◌%◌, ◌&&◌, ◌*◌, ◌++◌, ◌/◌, ◌<◌, ◌==◌, ◌||◌, ◌∙◌, ◌∷◌, ◌≡◌, ◌⊎◌,
}
use daas_engine.Base.Tables.Laws.{length-append}
use daas_engine.Control.Ids.{
  Clock, UlidCall, alphabet, char_at, chars, encode, new_ulid, rand_limit, ticked,
}

-- The order of texts of bytes, as Python compares them.
abbrev pub text_lt : List ℕ → List ℕ → Bool
text_lt xs [] = false
text_lt [] (y ∷ ys) = true
text_lt (x ∷ xs) (y ∷ ys) = ltb x y || x == y && text_lt xs ys

text_lt-before :
    (xs ys us vs : List ℕ)
    → length xs ≡ length ys
    → text_lt xs ys ≡ true
    → text_lt (xs ++ us) (ys ++ vs) ≡ true
text_lt-before xs [] us vs e h = absurd (cc)
text_lt-before [] (y ∷ ys) us vs e h = absurd (omega (arith, e))
text_lt-before (x ∷ xs) (y ∷ ys) us vs e h =
    ground (arith, h, text_lt-before xs ys us vs (omega (arith, e)))

text_lt-after : (xs us vs : List ℕ) → text_lt us vs ≡ true → text_lt (xs ++ us) (xs ++ vs) ≡ true
text_lt-after [] us vs h = h
text_lt-after (x ∷ xs) us vs h = ground (arith, ==_refl x, text_lt-after xs us vs h)

-- A list of bytes that ascends.
abbrev all_above : ℕ → List ℕ → Bool
all_above c [] = true
all_above c (d ∷ ds) = ltb c d && all_above c ds

abbrev ascends : List ℕ → Bool
ascends [] = true
ascends (c ∷ cs) = all_above c cs && ascends cs

char_at-above :
    (c : ℕ) (cs : List ℕ) (j : ℕ) → all_above c cs ≡ true → j < length cs → c < char_at cs j
char_at-above c [] j h l = absurd (omega (arith, l))
char_at-above c (d ∷ ds) zero h l = ground (arith, h)
char_at-above c (d ∷ ds) (suc j) h l = char_at-above c ds j (ground (arith, h)) (omega (arith, l))

char_at-lt :
    (cs : List ℕ) (i j : ℕ)
    → ascends cs ≡ true
    → i < j
    → j < length cs
    → char_at cs i < char_at cs j
char_at-lt [] i j h lt l = absurd (omega (arith, l))
char_at-lt (c ∷ cs) i zero h lt l = absurd (omega (arith, lt))
char_at-lt (c ∷ cs) zero (suc j) h lt l =
    char_at-above c cs j (ground (arith, h)) (omega (arith, l))
char_at-lt (c ∷ cs) (suc i) (suc j) h lt l =
    char_at-lt cs i j (ground (arith, h)) (omega (arith, lt)) (omega (arith, l))

text_lt-single : (x y : ℕ) → x < y → text_lt (x ∷ []) (y ∷ []) ≡ true
text_lt-single x y h = ground (arith, h)

text_lt-char_at :
    (cs : List ℕ) (i j : ℕ)
    → ascends cs ≡ true
    → i < j
    → j < length cs
    → text_lt (char_at cs i ∷ []) (char_at cs j ∷ []) ≡ true
text_lt-char_at cs i j h lt l =
    text_lt-single (char_at cs i) (char_at cs j) (char_at-lt cs i j h lt l)

alphabet-ascends : ascends alphabet ≡ true
alphabet-ascends = refl

encode-suc :
    (value n : ℕ)
    → encode value (suc n) ≡ encode (value / 32) n ++ (char_at alphabet (value % 32) ∷ [])
unfolding encode chars
encode-suc value n = reverse-append (char_at alphabet (value % 32) ∷ []) (chars (value / 32) n)

pub length-encode : (value n : ℕ) → length (encode value n) ≡ n
unfolding encode chars
length-encode value zero = refl
length-encode value (suc n) =
    ap length (encode-suc value n)
    ∙ omega (
      arith,
      length-append (encode (value / 32) n) (char_at alphabet (value % 32) ∷ []),
      length-encode (value / 32) n,
    )

abbrev pub pow32 : ℕ → ℕ
pow32 zero = 1
pow32 (suc n) = 32 * pow32 n

digit_cases : (a b : ℕ) → a < b → (a / 32 < b / 32) ⊎ ((a / 32 ≡ b / 32) × (a % 32 < b % 32))
digit_cases a b h = ground (arith, h)

mod32 : (b : ℕ) → b % 32 < 32
mod32 b = omega arith

-- Texts of one length sort like the numbers that they encode.
pub encode-lt : (n a b : ℕ) → a < b → b < pow32 n → text_lt (encode a n) (encode b n) ≡ true
encode-lt zero a b h l = absurd (omega (arith, h, l))
encode-lt (suc n) a b h l =
    rw (encode-suc a n, encode-suc b n)
      (elim (digit_cases a b h) [
        | inl lt ↦
            text_lt-before (encode (a / 32) n) (encode (b / 32) n) _ _
              (length-encode (a / 32) n ∙ sym (length-encode (b / 32) n))
              (encode-lt n (a / 32) (b / 32) lt (omega (arith, l)))
        | inr (e, lt) ↦ rw e (
            text_lt-after (encode (b / 32) n) _ _
              (text_lt-char_at alphabet (a % 32) (b % 32) alphabet-ascends lt (mod32 b)))
      ])

-- The order of the globals.
abbrev pub IsBefore : ℕ × ℕ → ℕ × ℕ → Type 0
IsBefore a b = (a.0 < b.0) ⊎ ((a.0 ≡ b.0) × (a.1 < b.1))

pub new_ulid-text :
    (c : UlidCall) (clock : Clock)
    → (new_ulid c clock).0 ≡ encode (ticked c clock).0 10 ++ encode (ticked c clock).1 16
unfolding new_ulid
new_ulid-text c clock = refl

pub text_lt-ulid :
    (a b : ℕ × ℕ)
    → IsBefore a b
    → b.0 < pow32 10
    → b.1 < rand_limit
    → text_lt (encode a.0 10 ++ encode a.1 16) (encode b.0 10 ++ encode b.1 16) ≡ true
text_lt-ulid a b (inl lt) l m =
    text_lt-before (encode a.0 10) (encode b.0 10) _ _
      (length-encode a.0 10 ∙ sym (length-encode b.0 10)) (encode-lt 10 a.0 b.0 lt l)
text_lt-ulid a b (inr (e, lt)) l m =
    rw e (text_lt-after (encode b.0 10) _ _ (encode-lt 16 a.1 b.1 lt m))
