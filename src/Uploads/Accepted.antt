-- ===== src/Uploads/Accepted.antt =====
-- The files that `validate_csv_bytes` of app/core/upload_guard.py accepts.
use daas_engine.Base.{
  Bool-cases, List, Option, [], ap, arith, false, inl, inr, length, map, none, refl, select_where,
  some, subst, sym, true, ℕ, ◌↔◌, ◌∙◌, ◌∷◌, ◌≡◌, ◌≢◌, ◌≤◌, ◌⊎◌,
}
use daas_engine.Sources.{Text, take}
use daas_engine.Uploads.{
  CsvLib, CsvValidationResult, Encoding, Judgement, ReadResult, UploadRejected, decode_strict,
  first_row, has_schema, has_value, iter_validated_rows, max_csv_field_bytes, other_error,
  over_field_limit, passed, read_row, read_rows, rejected, sniff_delimiter, validate_csv_bytes,
  validate_rows,
}
use daas_engine.Uploads.Rows.{read_rows-Yields, read_rows-within}

-- What a file must be to be accepted with a result: it decodes, every read of it gives a row, the
-- header has a cell that is not blank and the required columns, and the rows with such a cell are
-- as many as the result says and no more than the limit.
pub record Accepts (lib : CsvLib) (max_records : ℕ) (raw : List ℕ) (r : CsvValidationResult)
    : Type 0 where
  pub text : Text
  pub rows : List (List Text)
  pub has_bytes : lib.is_blank_bytes raw ≡ false
  pub decoded : decode_strict lib raw ≡ passed (text, r.encoding)
  pub all_read :
      lib.reader max_csv_field_bytes (sniff_delimiter lib (take 8192 text)) text
      ≡ read_row r.header ∷ map read_row rows
  pub titled : has_value lib r.header ≡ true
  pub counted : r.record_count ≡ length (select_where (has_value lib) rows)
  pub within : r.record_count ≤ max_records
  pub schema : has_schema lib r.header ≡ true

Judgement-cases :
    {A : Type 0} (c : Judgement A)
    → ((a : A) × (c ≡ passed a)) ⊎ ((e : UploadRejected) × (c ≡ rejected e))
Judgement-cases (passed a) = inl (a, refl)
Judgement-cases (rejected e) = inr (e, refl)

validate_csv_bytes-of :
    (lib : CsvLib) (max_records : ℕ) (raw : List ℕ) (r : CsvValidationResult)
    → Accepts lib max_records raw r
    → validate_csv_bytes lib max_records raw ≡ passed r
unfolding validate_csv_bytes iter_validated_rows first_row validate_rows
validate_csv_bytes-of lib m raw r a =
    let loop = read_rows-within lib m 0 a.rows (omega (arith, a.within, a.counted)) in
    rw (a.has_bytes, a.decoded, a.all_read, a.titled, loop, a.schema, sym a.counted) refl

passed_injective : {A : Type 0} (a b : A) → passed a ≡ passed b → a ≡ b
passed_injective a b e = cc e

passed_not_rejected : {A : Type 0} (a : A) (e : UploadRejected) → rejected e ≢ passed a
passed_not_rejected a e f = cc f

validate_rows-passed :
    (lib : CsvLib) (encoding : Encoding) (header : List Text)
    (rest : List (List Text) × Option UploadRejected) (r : CsvValidationResult)
    → validate_rows lib encoding header rest ≡ passed r
    → (rest.1 ≡ none)
      × (has_schema lib header ≡ true)
      × (record { encoding = encoding; header = header; record_count = length rest.0 } ≡ r)
unfolding validate_rows
validate_rows-passed lib encoding header (yielded, some e) r f = absurd (passed_not_rejected r e f)
validate_rows-passed lib encoding header (yielded, none) r f =
    elim (Bool-cases (has_schema lib header)) [
      | inl s ↦ (refl, s, passed_injective _ r (rw s at f))
      | inr s ↦ absurd (passed_not_rejected r _ (rw s at f))
    ]

-- What the reads were, where the header was yielded.
record Headed (lib : CsvLib) (max_records : ℕ) (reads : List ReadResult) (header : List Text)
    (rest : List (List Text) × Option UploadRejected) : Type 0 where
  tail : List ReadResult
  first : reads ≡ read_row header ∷ tail
  titled : has_value lib header ≡ true
  loop : rest ≡ read_rows lib max_records 0 tail

first_row-Headed :
    (lib : CsvLib) (max_records : ℕ) (reads : List ReadResult) (header : List Text)
    (rest : List (List Text) × Option UploadRejected)
    → first_row lib max_records reads ≡ passed (header, rest)
    → Headed lib max_records reads header rest
unfolding first_row
first_row-Headed lib m [] header rest e = absurd (passed_not_rejected _ _ e)
first_row-Headed lib m (over_field_limit ∷ _) header rest e = absurd (passed_not_rejected _ _ e)
first_row-Headed lib m (other_error ∷ _) header rest e = absurd (passed_not_rejected _ _ e)
first_row-Headed lib m (read_row cells ∷ reads) header rest e =
    elim (Bool-cases (has_value lib cells)) [
      | inl v ↦
          let same = passed_injective _ _ (rw v at e) in
          record {
            tail = reads;
            first = ap (λ h. read_row h ∷ reads) (ap (λ p. p.0) same);
            titled = subst (λ h. has_value lib h ≡ true) (ap (λ p. p.0) same) v;
            loop = sym (ap (λ p. p.1) same);
          }
      | inr v ↦ absurd (passed_not_rejected _ _ (rw v at e))
    ]

accepted :
    (lib : CsvLib) (max_records : ℕ) (raw : List ℕ) (r : CsvValidationResult) (text : Text)
    (encoding : Encoding) (header : List Text) (rest : List (List Text) × Option UploadRejected)
    → lib.is_blank_bytes raw ≡ false
    → decode_strict lib raw ≡ passed (text, encoding)
    → Headed lib max_records
        (lib.reader max_csv_field_bytes (sniff_delimiter lib (take 8192 text)) text)
        header
        rest
    → (rest.1 ≡ none)
      × (has_schema lib header ≡ true)
      × (record { encoding = encoding; header = header; record_count = length rest.0 } ≡ r)
    → Accepts lib max_records raw r
accepted lib m raw r text encoding header rest b d h (no_exception, s, same) =
    let read =
      read_rows-Yields lib m 0 h.tail (omega arith) (sym (ap (λ p. p.1) h.loop) ∙ no_exception) in
    subst (Accepts lib m raw) same (record {
      text = text;
      rows = read.rows;
      has_bytes = b;
      decoded = d;
      all_read = h.first ∙ ap (λ t. read_row header ∷ t) read.all_read;
      titled = h.titled;
      counted = ap length (ap (λ p. p.0) h.loop ∙ read.counted);
      within = subst (λ p. length p.0 ≤ m) (sym h.loop) (omega (arith, read.within));
      schema = s;
    })

Accepts-of :
    (lib : CsvLib) (max_records : ℕ) (raw : List ℕ) (r : CsvValidationResult)
    → validate_csv_bytes lib max_records raw ≡ passed r
    → Accepts lib max_records raw r
unfolding validate_csv_bytes iter_validated_rows
Accepts-of lib m raw r e = elim (Bool-cases (lib.is_blank_bytes raw)) [
  | inl b ↦ absurd (passed_not_rejected r _ (rw b at e))
  | inr b ↦ elim (Judgement-cases (decode_strict lib raw)) [
    | inr (x, d) ↦ absurd (passed_not_rejected r x (rw (b, d) at e))
    | inl ((text, encoding), d) ↦
        elim (Judgement-cases (
          first_row lib m
            (lib.reader max_csv_field_bytes (sniff_delimiter lib (take 8192 text)) text))) [
              | inr (x, f) ↦ absurd (passed_not_rejected r x (rw (b, d, f) at e))
              | inl ((header, rest), f) ↦
                  accepted lib m raw r text encoding header rest b d
                    (first_row-Headed lib m _ header rest f)
                    (validate_rows-passed lib encoding header rest r (rw (b, d, f) at e))
            ]
  ]
]

-- `validate_csv_bytes` accepts a file with a result exactly where the file is not blank, an
-- encoding decodes it, every read gives a row, the header has a cell that is not blank and the
-- columns of the revenue and of the date, and the rows with a cell that is not blank are as many
-- as the result says and at most the limit.
pub validate_csv_bytes-Accepts :
    (lib : CsvLib) (max_records : ℕ) (raw : List ℕ) (r : CsvValidationResult)
    → (validate_csv_bytes lib max_records raw ≡ passed r) ↔ Accepts lib max_records raw r
validate_csv_bytes-Accepts lib m raw r = (Accepts-of lib m raw r, validate_csv_bytes-of lib m raw r)
