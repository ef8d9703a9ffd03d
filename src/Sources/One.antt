-- ===== src/Sources/One.antt =====
-- The match of the columns of `detect_mapping` of app/sources/csv_mapper.py is one to one.
use daas_engine.Base.{
  ==_refl, ==→eq, Bool, Bool-cases, List, Option, Option-cases, [], arith, count_where,
  exists_where, false, find_where, if◌then◌else◌, inl, inr, none, refl, some, subst, sym, true,
  ◌==◌, ◌∷◌, ◌≡◌, ◌≤◌,
}
use daas_engine.Base.Tables.Laws.{find_where-meets}
use daas_engine.Sources.{
  Canon, Mapping, Text, TextLib, add_hit, aliases_of, canons, detect_mapping, exact_pass, first_hit,
  is_exact, is_mapped, is_partial, is_taken, non_empty, or_else, partial_pass, text_eq,
}

text_eq-eq : (s t : Text) → text_eq s t ≡ true → s ≡ t
unfolding text_eq
text_eq-eq [] [] e = refl
text_eq-eq [] (_ ∷ _) e = absurd (ground (arith, e))
text_eq-eq (_ ∷ _) [] e = absurd (ground (arith, e))
text_eq-eq (a ∷ s) (b ∷ t) e = elim (Bool-cases (a == b)) [
  | inl f ↦ rw (==→eq a b f, text_eq-eq s t (rw f at e)) refl
  | inr f ↦ absurd (ground (arith, rw f at e))
]

text_eq_self : (s : Text) → text_eq s s ≡ true
unfolding text_eq
text_eq_self [] = refl
text_eq_self (a ∷ s) = rw (==_refl a, text_eq_self s) refl

-- The column that an entry takes is the text.
abbrev pub takes : Text → Canon × Text → Bool
takes c e = text_eq c e.1

-- The entries are of the columns, one of each at most, and `used` has the columns of the entries.
record IsOne (columns : List Text) (m : Mapping) : Type 0 where
  at_most :
      (c : Text)
      → count_where (takes c) m.mapping ≤ (if exists_where (text_eq c) columns then 1 else 0)
  recorded : (c : Text) → is_taken c m.used ≡ false → count_where (takes c) m.mapping ≡ 0

-- A column that is there and not used.
record IsFree (columns : List Text) (m : Mapping) (hit : Text) : Type 0 where
  there : exists_where (text_eq hit) columns ≡ true
  unused : is_taken hit m.used ≡ false

add_hit-IsOne :
    (columns : List Text) (m : Mapping) (canon : Canon) (hit : Text)
    → IsOne columns m
    → IsFree columns m hit
    → IsOne columns (add_hit canon (some hit) m)
unfolding count_where is_taken exists_where
add_hit-IsOne columns m canon col one unused_col = record {
  at_most = λ c. elim (Bool-cases (text_eq c col)) [
    | inl e ↦
        let same = text_eq-eq c col e in
        let none_yet =
          one.recorded c (subst (λ t. is_taken t m.used ≡ false) (sym same) unused_col.unused) in
        let there =
          subst (λ t. exists_where (text_eq t) columns ≡ true) (sym same) unused_col.there in
        rw (e, none_yet, there) (omega arith)
    | inr e ↦ rw e (omega (arith, one.at_most c))
  ];
  recorded = λ c f. elim (Bool-cases (text_eq c col)) [
    | inl e ↦ cc (rw e at f)
    | inr e ↦ rw e (omega (arith, one.recorded c (rw e at f)))
  ];
}

find_where-there :
    (p : Text → Bool) (columns : List Text) (c : Text)
    → find_where p columns ≡ some c
    → exists_where (text_eq c) columns ≡ true
unfolding find_where exists_where
find_where-there p [] c e = absurd (ground (arith, e))
find_where-there p (x ∷ columns) c e = elim (Bool-cases (p x)) [
  | inl f ↦
      let same : c ≡ x = ground (arith, rw f at e) in
      rw (subst (λ t. text_eq c t ≡ true) same (text_eq_self c)) refl
  | inr f ↦ ground (arith, find_where-there p columns c (rw f at e))
]

module _ (columns : List Text) (m : Mapping) (test : Text → Text → Bool)
    (keeps : (alias c : Text) → test alias c ≡ true → is_taken c m.used ≡ false) where
  tried-IsFree :
      (alias : Text) (rest : Option Text) (found : Option Text) (col : Text)
      → find_where (test alias) columns ≡ found
      → (rest ≡ some col → IsFree columns m col)
      → or_else (non_empty found) rest ≡ some col
      → IsFree columns m col
  tried-IsFree alias rest none col f k e = k e
  tried-IsFree alias rest (some []) col f k e = k e
  tried-IsFree alias rest (some (x ∷ s)) col f k e =
      let same : x ∷ s ≡ col = ground (arith, e) in
      subst (IsFree columns m) same (record {
        there = find_where-there (test alias) columns (x ∷ s) f;
        unused = keeps alias (x ∷ s) (find_where-meets (test alias) columns (x ∷ s) f);
      })

  first_hit-IsFree :
      (aliases : List Text) (col : Text)
      → first_hit test columns aliases ≡ some col
      → IsFree columns m col
  first_hit-IsFree [] col e = absurd (ground (arith, e))
  first_hit-IsFree (alias ∷ aliases) col e =
      tried-IsFree alias (first_hit test columns aliases) (find_where (test alias) columns) col refl
        (first_hit-IsFree aliases col) e

  tried-IsOne :
      (canon : Canon) (aliases : List Text)
      → IsOne columns m
      → IsOne columns (add_hit canon (first_hit test columns aliases) m)
  tried-IsOne canon aliases one = elim (Option-cases (first_hit test columns aliases)) [
    | inl e ↦ rw e one
    | inr (col, e) ↦ rw e (add_hit-IsOne columns m canon col one (first_hit-IsFree aliases col e))
  ]

exact_pass-IsOne :
    (lib : TextLib) (columns : List Text) (rest : List Canon) (m : Mapping)
    → IsOne columns m
    → IsOne columns (exact_pass lib columns rest m)
unfolding exact_pass is_exact
exact_pass-IsOne lib columns [] m one = one
exact_pass-IsOne lib columns (canon ∷ rest) m one = exact_pass-IsOne lib columns rest _ (
    tried-IsOne columns m (is_exact lib m) (λ alias c e. ground (arith, e)) canon (aliases_of canon)
      one)

partial_pass-IsOne :
    (lib : TextLib) (columns : List Text) (rest : List Canon) (m : Mapping)
    → IsOne columns m
    → IsOne columns (partial_pass lib columns rest m)
unfolding partial_pass is_partial
partial_pass-IsOne lib columns [] m one = one
partial_pass-IsOne lib columns (canon ∷ rest) m one =
    elim (Bool-cases (is_mapped canon m.mapping)) [
      | inl e ↦ rw e (partial_pass-IsOne lib columns rest m one)
      | inr e ↦ rw e (
          partial_pass-IsOne lib columns rest _ (
            tried-IsOne columns m (is_partial lib m) (λ alias c e. ground (arith, e)) canon
              (aliases_of canon) one))
    ]

-- A column of the file is given to at most one known column, and what is given is a column of the
-- file.
pub detect_mapping-one :
    (lib : TextLib) (columns : List Text) (c : Text)
    → count_where (takes c) (detect_mapping lib columns).mapping
      ≤ (if exists_where (text_eq c) columns then 1 else 0)
unfolding detect_mapping count_where
detect_mapping-one lib columns c =
    (partial_pass-IsOne lib columns canons _ (
        exact_pass-IsOne lib columns canons _
          (record { at_most = λ c. omega arith; recorded = λ c e. refl }))).at_most
      c
