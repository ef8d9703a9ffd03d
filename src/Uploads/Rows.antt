-- ===== src/Uploads/Rows.antt =====
-- The loop of `iter_validated_rows` of app/core/upload_guard.py: when it ends without an exception.
use daas_engine.Base.{
  Bool-cases, List, [], ap, arith, false, if◌then◌else◌, inl, inr, leb, leb_false→lt, leb→le,
  length, ltb, ltb→lt, map, none, refl, select_where, subst, sym, true, ℕ, ◌+◌, ◌<◌, ◌∙◌, ◌∷◌, ◌≡◌,
  ◌≢◌, ◌≤◌,
}
use daas_engine.Sources.{Text}
use daas_engine.Uploads.{
  CsvLib, ReadResult, has_value, other_error, over_field_limit, read_row, read_rows,
}

read_rows-skipped :
    (lib : CsvLib) (max_records count : ℕ) (cells : List Text) (reads : List ReadResult)
    → has_value lib cells ≡ false
    → read_rows lib max_records count (read_row cells ∷ reads)
      ≡ read_rows lib max_records count reads
unfolding read_rows
read_rows-skipped lib m count cells reads e = rw e refl

read_rows-past :
    (lib : CsvLib) (max_records count : ℕ) (cells : List Text) (reads : List ReadResult)
    → has_value lib cells ≡ true
    → max_records < count + 1
    → (read_rows lib max_records count (read_row cells ∷ reads)).1 ≢ none
unfolding read_rows
read_rows-past lib m count cells reads e h f = ground (arith, e, h, f)

read_rows-more :
    (lib : CsvLib) (max_records count : ℕ) (cells : List Text) (reads : List ReadResult)
    → has_value lib cells ≡ true
    → count + 1 ≤ max_records
    → read_rows lib max_records count (read_row cells ∷ reads) ≡ (
      cells ∷ (read_rows lib max_records (count + 1) reads).0,
      (read_rows lib max_records (count + 1) reads).1,
    )
unfolding read_rows
read_rows-more lib m count cells reads e h = elim (Bool-cases (ltb m (count + 1))) [
  | inl f ↦ absurd (omega (arith, ltb→lt m (count + 1) f))
  | inr f ↦ rw (e, f) refl
]

-- Where the rows with a value are no more than the limit, the loop yields each of them.
pub read_rows-within :
    (lib : CsvLib) (max_records count : ℕ) (rows : List (List Text))
    → count + length (select_where (has_value lib) rows) ≤ max_records
    → read_rows lib max_records count (map read_row rows)
      ≡ (select_where (has_value lib) rows, none)
unfolding read_rows select_where
read_rows-within lib m count [] h = refl
read_rows-within lib m count (cells ∷ rows) h = elim (Bool-cases (has_value lib cells)) [
  | inl e ↦
      let near =
        subst
          (λ b.
            count
              + length (
                  if b
                  then cells ∷ select_where (has_value lib) rows
                  else select_where (has_value lib) rows)
            ≤ m)
          e h in
      read_rows-more lib m count cells (map read_row rows) e (omega arith)
      ∙ rw (e, read_rows-within lib m (count + 1) rows (omega arith)) refl
  | inr e ↦
      let near =
        subst
          (λ b.
            count
              + length (
                  if b
                  then cells ∷ select_where (has_value lib) rows
                  else select_where (has_value lib) rows)
            ≤ m)
          e h in
      read_rows-skipped lib m count cells (map read_row rows) e
      ∙ rw (e, read_rows-within lib m count rows near) refl
]

-- What was read, where the loop ended without an exception.
pub record Yields (lib : CsvLib) (max_records count : ℕ) (reads : List ReadResult)
    (yielded : List (List Text)) : Type 0 where
  pub rows : List (List Text)
  pub all_read : reads ≡ map read_row rows
  pub counted : yielded ≡ select_where (has_value lib) rows
  pub within : count + length yielded ≤ max_records

skip-Yields :
    (lib : CsvLib) (max_records count : ℕ) (cells : List Text) (reads : List ReadResult)
    (yielded : List (List Text))
    → has_value lib cells ≡ false
    → Yields lib max_records count reads yielded
    → Yields lib max_records count (read_row cells ∷ reads) yielded
unfolding select_where
skip-Yields lib m count cells reads yielded e y = record {
  rows = cells ∷ y.rows;
  all_read = ap (λ r. read_row cells ∷ r) y.all_read;
  counted = rw e y.counted;
  within = y.within;
}

more-Yields :
    (lib : CsvLib) (max_records count : ℕ) (cells : List Text) (reads : List ReadResult)
    (yielded : List (List Text))
    → has_value lib cells ≡ true
    → Yields lib max_records (count + 1) reads yielded
    → Yields lib max_records count (read_row cells ∷ reads) (cells ∷ yielded)
unfolding select_where
more-Yields lib m count cells reads yielded e y = record {
  rows = cells ∷ y.rows;
  all_read = ap (λ r. read_row cells ∷ r) y.all_read;
  counted = rw e (ap (λ r. cells ∷ r) y.counted);
  within = omega (arith, y.within);
}

pub read_rows-Yields :
    (lib : CsvLib) (max_records count : ℕ) (reads : List ReadResult)
    → count ≤ max_records
    → (read_rows lib max_records count reads).1 ≡ none
    → Yields lib max_records count reads (read_rows lib max_records count reads).0
unfolding read_rows select_where
read_rows-Yields lib m count [] h e = record {
  rows = [];
  all_read = refl;
  counted = refl;
  within = omega arith;
}
read_rows-Yields lib m count (over_field_limit ∷ _) h e = absurd (ground (arith, e))
read_rows-Yields lib m count (other_error ∷ _) h e = absurd (ground (arith, e))
read_rows-Yields lib m count (read_row cells ∷ reads) h e =
    elim (Bool-cases (has_value lib cells)) [
      | inr f ↦
          let same = read_rows-skipped lib m count cells reads f in
          subst (λ r. Yields lib m count (read_row cells ∷ reads) r.0) (sym same)
            (skip-Yields lib m count cells reads _ f
              (read_rows-Yields lib m count reads h (sym (ap (λ r. r.1) same) ∙ e)))
      | inl f ↦ elim (Bool-cases (leb (count + 1) m)) [
        | inr past ↦
            absurd (read_rows-past lib m count cells reads f (leb_false→lt (count + 1) m past) e)
        | inl fits ↦
            let same = read_rows-more lib m count cells reads f (leb→le (count + 1) m fits) in
            subst (λ r. Yields lib m count (read_row cells ∷ reads) r.0) (sym same)
              (more-Yields lib m count cells reads _ f (
                read_rows-Yields lib m (count + 1) reads (leb→le (count + 1) m fits)
                  (sym (ap (λ r. r.1) same) ∙ e)))
      ]
    ]
