-- ===== src/Base/Tables/Laws.antt =====
-- What the SQL statements do to counts, to lookups and to predicates that hold of every row.
use daas_engine.Base.{
  All, Bool, Bool-cases, List, [], ap, arith, count_where, delete_where, exists_where, false,
  find_where, if◌then◌else◌, inl, inr, length, none, not, refl, select_where, some, subst, suc,
  true, update_where, ℕ, ◌&&◌, ◌++◌, ◌+◌, ◌<◌, ◌||◌, ◌∷◌, ◌≡◌, ◌≤◌,
}

lone_rest : (b : Bool) (n : ℕ) → b ≡ true → (if b then 1 else 0) + n ≤ 1 → n ≡ 0
lone_rest true n e h = omega (arith, h)
lone_rest false n e h = absurd (cc)

module _ {ℓ} {A : Type ℓ} where
  pub length-append : (xs ys : List A) → length (xs ++ ys) ≡ length xs + length ys
  length-append [] ys = omega arith
  length-append (x ∷ xs) ys = omega (arith, length-append xs ys)

  pub length-update_where :
      (p : A → Bool) (f : A → A) (xs : List A) → length (update_where p f xs) ≡ length xs
  unfolding update_where
  length-update_where p f [] = refl
  length-update_where p f (x ∷ xs) = ap suc (length-update_where p f xs)

  pub count_where-append :
      (q : A → Bool) (xs ys : List A)
      → count_where q (xs ++ ys) ≡ count_where q xs + count_where q ys
  unfolding count_where
  count_where-append q [] ys = omega arith
  count_where-append q (x ∷ xs) ys = ground (arith, count_where-append q xs ys)

  pub count_where-single : (q : A → Bool) (x : A) → count_where q (x ∷ []) ≤ 1
  unfolding count_where
  count_where-single q x = ground arith

  pub find_where-append :
      (p : A → Bool) (xs : List A) (x : A)
      → find_where p xs ≡ none
      → p x ≡ true
      → find_where p (xs ++ (x ∷ [])) ≡ some x
  unfolding find_where
  find_where-append p [] x e h = ground (arith, h)
  find_where-append p (y ∷ ys) x e h = ground (arith, find_where-append p ys x)

  -- A new row, or an UPDATE of other rows, does not change the row that is found.
  pub find_where-append_other :
      (p : A → Bool) (xs : List A) (x : A)
      → p x ≡ false
      → find_where p (xs ++ (x ∷ [])) ≡ find_where p xs
  unfolding find_where
  find_where-append_other p [] x h = ground (arith, h)
  find_where-append_other p (y ∷ ys) x h = ground (arith, find_where-append_other p ys x h)

  pub find_where-update_other :
      (p q : A → Bool) (f : A → A) (xs : List A)
      → ((x : A) → q x ≡ true → p x ≡ false)
      → ((x : A) → q x ≡ true → p (f x) ≡ false)
      → find_where p (update_where q f xs) ≡ find_where p xs
  unfolding find_where update_where
  find_where-update_other p q f [] h k = refl
  find_where-update_other p q f (y ∷ ys) h k =
      ground (arith, h y, k y, find_where-update_other p q f ys h k)

  -- An UPDATE of rows that are not selected, before and after it, changes no selected row.
  pub select_where-update_other :
      (p q : A → Bool) (f : A → A) (xs : List A)
      → ((x : A) → q x ≡ true → p x ≡ false)
      → ((x : A) → q x ≡ true → p (f x) ≡ false)
      → select_where p (update_where q f xs) ≡ select_where p xs
  unfolding select_where update_where
  select_where-update_other p q f [] h k = refl
  select_where-update_other p q f (x ∷ xs) h k = elim (Bool-cases (q x)) [
    | inl e ↦ rw (e, h x e, k x e) (select_where-update_other p q f xs h k)
    | inr e ↦ rw (e, select_where-update_other p q f xs h k) refl
  ]

  -- An UPDATE of rows on which a test keeps its value keeps the count of that test.
  pub count_where-update_keep :
      (q p : A → Bool) (f : A → A) (xs : List A)
      → ((x : A) → p x ≡ true → q (f x) ≡ q x)
      → count_where q (update_where p f xs) ≡ count_where q xs
  unfolding count_where update_where
  count_where-update_keep q p f [] h = refl
  count_where-update_keep q p f (x ∷ xs) h = elim (Bool-cases (p x)) [
    | inl e ↦ rw (e, h x e) (omega (arith, count_where-update_keep q p f xs h))
    | inr e ↦ rw e (omega (arith, count_where-update_keep q p f xs h))
  ]

  -- An UPDATE that makes a test fail on the rows it changes, all of which met it.
  pub count_where-update_gone :
      (q p : A → Bool) (f : A → A) (xs : List A)
      → ((x : A) → p x ≡ true → q x ≡ true)
      → ((x : A) → p x ≡ true → q (f x) ≡ false)
      → count_where q (update_where p f xs) + count_where p xs ≡ count_where q xs
  unfolding count_where update_where
  count_where-update_gone q p f [] h g = omega arith
  count_where-update_gone q p f (x ∷ xs) h g = elim (Bool-cases (p x)) [
    | inl e ↦ rw (e, h x e, g x e) (omega (arith, count_where-update_gone q p f xs h g))
    | inr e ↦ rw e (omega (arith, count_where-update_gone q p f xs h g))
  ]

  -- An UPDATE that can only make a test fail never raises its count.
  pub count_where-update_le :
      (q p : A → Bool) (f : A → A) (xs : List A)
      → ((x : A) → p x ≡ true → q (f x) ≡ true → q x ≡ true)
      → count_where q (update_where p f xs) ≤ count_where q xs
  unfolding count_where update_where
  count_where-update_le q p f [] h = omega arith
  count_where-update_le q p f (x ∷ xs) h = ground (arith, h x, count_where-update_le q p f xs h)

  pub update_where-none :
      (p : A → Bool) (f : A → A) (xs : List A) → count_where p xs ≡ 0 → update_where p f xs ≡ xs
  unfolding count_where update_where
  update_where-none p f [] h = refl
  update_where-none p f (x ∷ xs) h = elim (Bool-cases (p x)) [
    | inl e ↦ absurd (ground arith)
    | inr e ↦ rw e (ap (λ r. x ∷ r) (update_where-none p f xs (ground arith)))
  ]

  pub count_where-delete_le :
      (q p : A → Bool) (xs : List A) → count_where q (delete_where p xs) ≤ count_where q xs
  unfolding count_where delete_where
  count_where-delete_le q p [] = omega arith
  count_where-delete_le q p (x ∷ xs) = ground (arith, count_where-delete_le q p xs)

  -- A DELETE removes from a count the rows that meet both tests.
  pub count_where-delete :
      (q p : A → Bool) (xs : List A)
      → count_where q (delete_where p xs) + count_where (λ x. q x && p x) xs ≡ count_where q xs
  unfolding count_where delete_where
  count_where-delete q p [] = omega arith
  count_where-delete q p (x ∷ xs) = ground (arith, count_where-delete q p xs)

  -- An UPDATE takes from a count at most the rows that meet both tests.
  pub count_where-update_drop :
      (q p : A → Bool) (f : A → A) (xs : List A)
      → count_where q xs ≤ count_where q (update_where p f xs) + count_where (λ x. q x && p x) xs
  unfolding count_where update_where
  count_where-update_drop q p f [] = omega arith
  count_where-update_drop q p f (x ∷ xs) = ground (arith, count_where-update_drop q p f xs)

  pub count_where_mono :
      (q r : A → Bool) (xs : List A)
      → ((x : A) → q x ≡ true → r x ≡ true)
      → count_where q xs ≤ count_where r xs
  unfolding count_where
  count_where_mono q r [] h = omega arith
  count_where_mono q r (x ∷ xs) h = ground (arith, h x, count_where_mono q r xs h)

  pub count_where-never :
      (q : A → Bool) (xs : List A) → ((x : A) → q x ≡ false) → count_where q xs ≡ 0
  unfolding count_where
  count_where-never q [] h = refl
  count_where-never q (x ∷ xs) h = rw (h x) (omega (arith, count_where-never q xs h))

  pub exists_where-count :
      (p : A → Bool) (xs : List A) → exists_where p xs ≡ true → 0 < count_where p xs
  unfolding count_where exists_where
  exists_where-count p [] h = cc
  exists_where-count p (x ∷ xs) h = ground (arith, exists_where-count p xs)

  pub exists_where-false :
      (p : A → Bool) (xs : List A) → exists_where p xs ≡ false → count_where p xs ≡ 0
  unfolding count_where exists_where
  exists_where-false p [] h = refl
  exists_where-false p (x ∷ xs) h = ground (arith, exists_where-false p xs)

  -- Of a row that is alone with its key, a test that it fails counts nothing at the key.
  pub count_where-alone :
      (q k : A → Bool) (xs : List A) (a : A)
      → find_where k xs ≡ some a
      → count_where k xs ≤ 1
      → q a ≡ false
      → count_where (λ x. q x && k x) xs ≡ 0
  unfolding count_where find_where
  count_where-alone q k [] a e h f = refl
  count_where-alone q k (x ∷ xs) a e h f = elim (Bool-cases (k x)) [
    | inr t ↦ ground (arith, count_where-alone q k xs a)
    | inl t ↦ ground (arith, count_where_mono (λ y. q y && k y) k xs (λ y. ground arith))
  ]

  -- An UPDATE that makes a test fail takes the rows that met both tests from its count.
  pub count_where-update_out :
      (q p : A → Bool) (f : A → A) (xs : List A)
      → ((x : A) → q (f x) ≡ false)
      → count_where q (update_where p f xs) + count_where (λ x. q x && p x) xs ≡ count_where q xs
  unfolding count_where update_where
  count_where-update_out q p f [] h = omega arith
  count_where-update_out q p f (x ∷ xs) h = ground (arith, h x, count_where-update_out q p f xs h)

  pub count_where-found :
      (q k : A → Bool) (xs : List A) (a : A)
      → find_where k xs ≡ some a
      → q a ≡ true
      → 0 < count_where (λ x. q x && k x) xs
  unfolding count_where find_where
  count_where-found q k [] a e h = absurd (cc)
  count_where-found q k (x ∷ xs) a e h = ground (arith, count_where-found q k xs a)

  -- An UPDATE after which a test fails on the rows that it was for.
  pub count_where-update_clear :
      (q : A → Bool) (f : A → A) (xs : List A)
      → ((x : A) → q (f x) ≡ false)
      → count_where q (update_where q f xs) ≡ 0
  unfolding count_where update_where
  count_where-update_clear q f [] h = refl
  count_where-update_clear q f (x ∷ xs) h = ground (arith, h x, count_where-update_clear q f xs h)

  -- An UPDATE whose rows fail a second test that no other row meets.
  pub count_where-update_dead :
      (q p : A → Bool) (f : A → A) (xs : List A)
      → ((x : A) → p x ≡ true → q (f x) ≡ false)
      → ((x : A) → p x ≡ false → q x ≡ false)
      → count_where q (update_where p f xs) ≡ 0
  unfolding count_where update_where
  count_where-update_dead q p f [] h k = refl
  count_where-update_dead q p f (x ∷ xs) h k =
      ground (arith, h x, k x, count_where-update_dead q p f xs h k)

  -- Two tests that never meet, and a third that both imply.
  pub count_where-apart :
      (q r k : A → Bool) (xs : List A)
      → ((x : A) → (not (q x && r x) ≡ true) × ((q x || r x) ≡ true → k x ≡ true))
      → count_where q xs + count_where r xs ≤ count_where k xs
  unfolding count_where
  count_where-apart q r k [] h = omega arith
  count_where-apart q r k (x ∷ xs) h = ground (arith, h x, count_where-apart q r k xs h)

  -- The first row of an UPDATE that gives a test to rows where none had it.
  pub find_where-update_new :
      (q p : A → Bool) (f : A → A) (xs : List A) (a : A)
      → ((x : A) → p x ≡ true → q (f x) ≡ true)
      → find_where q xs ≡ none
      → find_where p xs ≡ some a
      → find_where q (update_where p f xs) ≡ some (f a)
  unfolding find_where update_where
  find_where-update_new q p f [] a h n e = absurd (cc)
  find_where-update_new q p f (x ∷ xs) a h n e =
      ground (arith, h x, n, e, find_where-update_new q p f xs a h)

  pub find_where-narrow :
      (q k : A → Bool) (xs : List A) (a : A)
      → ((x : A) → q x ≡ true → k x ≡ true)
      → find_where k xs ≡ some a
      → q a ≡ true
      → find_where q xs ≡ some a
  unfolding find_where
  find_where-narrow q k [] a h e m = absurd (cc)
  find_where-narrow q k (x ∷ xs) a h e m = ground (arith, h x, e, m, find_where-narrow q k xs a h)

  pub find_where-count :
      (q : A → Bool) (xs : List A) (a : A) → find_where q xs ≡ some a → 0 < count_where q xs
  unfolding find_where count_where
  find_where-count q [] a e = absurd (cc)
  find_where-count q (x ∷ xs) a e = ground (arith, find_where-count q xs a)

  -- A table whose one row that meets a test is known.
  pub count_where-lone :
      (q k : A → Bool) (xs : List A) (a : A)
      → find_where k xs ≡ some a
      → count_where k xs ≤ 1
      → ((x : A) → q x ≡ true → k x ≡ true)
      → count_where q xs ≡ (if q a then 1 else 0)
  unfolding find_where count_where
  count_where-lone q k [] a e h i = absurd (cc)
  count_where-lone q k (x ∷ xs) a e h i = elim (Bool-cases (k x)) [
    | inl t ↦
        let none_left : count_where q xs ≡ 0 =
          omega (arith, count_where_mono q k xs i, lone_rest (k x) (count_where k xs) t h) in
        let same : x ≡ a = ground (arith, e, t) in
        subst (λ y. (if q x then 1 else 0) + count_where q xs ≡ (if q y then 1 else 0)) same
          (omega (arith, none_left))
    | inr f ↦ ground (arith, e, h, f, i x, count_where-lone q k xs a)
  ]

  pub count_where-select :
      (q p : A → Bool) (xs : List A)
      → count_where q (select_where p xs) ≡ count_where (λ x. q x && p x) xs
  unfolding count_where select_where
  count_where-select q p [] = refl
  count_where-select q p (x ∷ xs) = ground (arith, count_where-select q p xs)

  -- Rows that go from one table to another are counted as before.
  pub count_where-moved :
      (q p : A → Bool) (xs ys : List A)
      → count_where q (select_where p xs ++ ys) + count_where q (delete_where p xs)
        ≡ count_where q xs + count_where q ys
  unfolding count_where select_where delete_where
  count_where-moved q p [] ys = omega arith
  count_where-moved q p (x ∷ xs) ys = ground (arith, count_where-moved q p xs ys)

  pub length-moved :
      (p : A → Bool) (xs ys : List A)
      → length (select_where p xs ++ ys) + length (delete_where p xs) ≡ length xs + length ys
  unfolding select_where delete_where
  length-moved p [] ys = omega arith
  length-moved p (x ∷ xs) ys = ground (arith, length-moved p xs ys)

  pub length-select_where :
      (p : A → Bool) (xs : List A) → length (select_where p xs) ≡ count_where p xs
  unfolding count_where select_where
  length-select_where p [] = refl
  length-select_where p (x ∷ xs) = ground (arith, length-select_where p xs)

  -- A lookup after a DELETE that spares the rows that it is for.
  pub find_where-delete_keep :
      (k p : A → Bool) (xs : List A)
      → ((x : A) → k x ≡ true → p x ≡ false)
      → find_where k (delete_where p xs) ≡ find_where k xs
  unfolding find_where delete_where
  find_where-delete_keep k p [] h = refl
  find_where-delete_keep k p (x ∷ xs) h = ground (arith, h x, find_where-delete_keep k p xs h)

  pub count_where-delete_self : (p : A → Bool) (xs : List A) → count_where p (delete_where p xs) ≡ 0
  unfolding count_where delete_where
  count_where-delete_self p [] = refl
  count_where-delete_self p (x ∷ xs) = ground (arith, count_where-delete_self p xs)

  -- A lookup by a test that the UPDATE leaves alone finds the changed row.
  pub find_where-update :
      (k p : A → Bool) (f : A → A) (xs : List A)
      → ((x : A) → p x ≡ true → k (f x) ≡ k x)
      → find_where k (update_where p f xs)
        ≡ elim (find_where k xs) [ none ↦ none | some x ↦ some (if p x then f x else x) ]
  unfolding find_where update_where
  find_where-update k p f [] h = refl
  find_where-update k p f (x ∷ xs) h = ground (arith, h x, find_where-update k p f xs h)

  pub find_where-none : (p : A → Bool) (xs : List A) → find_where p xs ≡ none → count_where p xs ≡ 0
  unfolding find_where count_where
  find_where-none p [] h = refl
  find_where-none p (x ∷ xs) h = ground (arith, find_where-none p xs)

  pub find_where-meets :
      (k : A → Bool) (xs : List A) (a : A) → find_where k xs ≡ some a → k a ≡ true
  unfolding find_where
  find_where-meets k [] a h = cc
  find_where-meets k (x ∷ xs) a h = ground (arith, find_where-meets k xs a)

module _ {ℓ κ} {A : Type ℓ} (P : A → Type κ) where
  pub All-update_where :
      (p : A → Bool) (f : A → A) (xs : List A)
      → ((x : A) → p x ≡ true → P x → P (f x))
      → All P xs
      → All P (update_where p f xs)
  unfolding update_where
  All-update_where p f [] h a = tt
  All-update_where p f (x ∷ xs) h a = elim (Bool-cases (p x)) [
    | inl e ↦ rw e (h x e a.0, All-update_where p f xs h a.1)
    | inr e ↦ rw e (a.0, All-update_where p f xs h a.1)
  ]

  pub All-delete_where : (p : A → Bool) (xs : List A) → All P xs → All P (delete_where p xs)
  unfolding delete_where
  All-delete_where p [] a = tt
  All-delete_where p (x ∷ xs) a = elim (Bool-cases (p x)) [
    | inl e ↦ rw e (All-delete_where p xs a.1)
    | inr e ↦ rw e (a.0, All-delete_where p xs a.1)
  ]

  pub All-select_where :
      (p : A → Bool) (xs : List A) → ((x : A) → p x ≡ true → P x) → All P (select_where p xs)
  unfolding select_where
  All-select_where p [] h = tt
  All-select_where p (x ∷ xs) h = elim (Bool-cases (p x)) [
    | inl e ↦ rw e (h x e, All-select_where p xs h)
    | inr e ↦ rw e (All-select_where p xs h)
  ]

  pub All-append : (xs ys : List A) → All P xs → All P ys → All P (xs ++ ys)
  All-append [] ys a b = b
  All-append (x ∷ xs) ys a b = (a.0, All-append xs ys a.1 b)

  pub All-find_where :
      (k : A → Bool) (xs : List A) (a : A) → All P xs → find_where k xs ≡ some a → P a
  unfolding find_where
  All-find_where k [] a h e = cc
  All-find_where k (x ∷ xs) a h e = elim (Bool-cases (k x)) [
    | inl t ↦ subst P (cc) h.0
    | inr t ↦ All-find_where k xs a h.1 (ground arith)
  ]

-- The same, where the statement changes the predicate too.
module _ {ℓ κ} {A : Type ℓ} (P Q : A → Type κ) where
  pub All-update :
      (p : A → Bool) (f : A → A) (xs : List A)
      → ((x : A) → p x ≡ true → P x → Q (f x))
      → ((x : A) → p x ≡ false → P x → Q x)
      → All P xs
      → All Q (update_where p f xs)
  unfolding update_where
  All-update p f [] h g a = tt
  All-update p f (x ∷ xs) h g a = elim (Bool-cases (p x)) [
    | inl e ↦ rw e (h x e a.0, All-update p f xs h g a.1)
    | inr e ↦ rw e (g x e a.0, All-update p f xs h g a.1)
  ]

  pub All-delete :
      (p : A → Bool) (xs : List A)
      → ((x : A) → p x ≡ false → P x → Q x)
      → All P xs
      → All Q (delete_where p xs)
  unfolding delete_where
  All-delete p [] g a = tt
  All-delete p (x ∷ xs) g a = elim (Bool-cases (p x)) [
    | inl e ↦ rw e (All-delete p xs g a.1)
    | inr e ↦ rw e (g x e a.0, All-delete p xs g a.1)
  ]

  pub All-imp : (xs : List A) → ((x : A) → P x → Q x) → All P xs → All Q xs
  All-imp [] g a = tt
  All-imp (x ∷ xs) g a = (g x a.0, All-imp xs g a.1)

pub length-delete_le {ℓ} :
    {A : Type ℓ} (p : A → Bool) (xs : List A) → length (delete_where p xs) ≤ length xs
unfolding delete_where
length-delete_le p [] = omega arith
length-delete_le p (x ∷ xs) = ground (arith, length-delete_le p xs)

-- A DELETE keeps the count of a test that fails on what it deletes.
pub count_where-delete_keep {ℓ} :
    {A : Type ℓ} (q p : A → Bool) (xs : List A)
    → ((x : A) → p x ≡ true → q x ≡ false)
    → count_where q (delete_where p xs) ≡ count_where q xs
unfolding count_where delete_where
count_where-delete_keep q p [] h = refl
count_where-delete_keep q p (x ∷ xs) h = ground (arith, h x, count_where-delete_keep q p xs h)

pub All-both {ℓ κ} :
    {A : Type ℓ} (P Q : A → Type κ) (xs : List A) → All P xs → All Q xs → All (λ x. P x × Q x) xs
All-both P Q [] a b = tt
All-both P Q (x ∷ xs) a b = ((a.0, b.0), All-both P Q xs a.1 b.1)

pub All-of_count {ℓ} :
    {A : Type ℓ} (p : A → Bool) (xs : List A) → count_where p xs ≡ 0 → All (λ x. p x ≡ false) xs
unfolding count_where
All-of_count p [] h = tt
All-of_count p (x ∷ xs) h = (ground arith, All-of_count p xs (ground arith))

pub All-deleted {ℓ} :
    {A : Type ℓ} (p : A → Bool) (xs : List A) → All (λ x. p x ≡ false) (delete_where p xs)
unfolding delete_where
All-deleted p [] = tt
All-deleted p (x ∷ xs) = elim (Bool-cases (p x)) [
  | inl e ↦ rw e (All-deleted p xs)
  | inr e ↦ rw e (e, All-deleted p xs)
]
