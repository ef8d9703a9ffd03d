-- ===== src/Uploads.antt =====
-- The check of an uploaded file, app/core/upload_guard.py: its encoding, its rows and its
-- columns. A text is the list of its code points. Python's codecs, `csv` module and text methods
-- are `CsvLib`.
pub mod Rows
pub mod Accepted
use daas_engine.Base.{
  Bool, List, Option, [], count_where, exists_where, false, if◌then◌else◌, leb, length, ltb, map,
  none, not, some, ℕ, ◌&&◌, ◌+◌, ◌==◌, ◌∷◌,
}
use daas_engine.Sources.{Text, TextLib, date, detect_mapping, is_mapped, revenue, take, text_eq}

-- `ReasonCode`, the codes that the check of the content gives.
pub data ReasonCode : Type 0 where
  file_empty : ReasonCode
  decode_failed : ReasonCode
  header_missing : ReasonCode
  schema_mismatch : ReasonCode
  too_many_records : ReasonCode
  field_too_large : ReasonCode
  parser_error : ReasonCode

-- `UploadRejected`: the reason and the status of the answer.
pub record UploadRejected : Type 0 where
  pub reason : ReasonCode
  pub http_status : ℕ

-- What a check gives, or the exception that it raises.
pub data Judgement {ℓ} (A : Type ℓ) : Type ℓ where
  passed : A → Judgement A
  rejected : UploadRejected → Judgement A

pub data Encoding : Type 0 where
  utf_8_sig : Encoding
  utf_8 : Encoding
  cp1250 : Encoding

-- What `next(reader)` gives: a row, or one of the errors of the module. The end is the end of the
-- list.
pub data ReadResult : Type 0 where
  read_row : List Text → ReadResult
  over_field_limit : ReadResult
  other_error : ReadResult

-- The `csv` module and the codecs: `Sniffer().sniff(sample, delimiters).delimiter`, none where it
-- raises, the reader by its field limit and its delimiter, `bytes.decode`, none where it raises, and
-- whether `bytes.strip()` is empty.
pub record CsvLib : Type 0 where
  pub text : TextLib
  pub sniff : Text → List ℕ → Option ℕ
  pub reader : ℕ → ℕ → Text → List ReadResult
  pub decode : Encoding → List ℕ → Option Text
  pub is_blank_bytes : List ℕ → Bool

abbrev pub max_csv_field_bytes : ℕ
max_csv_field_bytes = 65536

abbrev pub reject : {A : Type 0} → ReasonCode → ℕ → Judgement A
reject reason http_status = rejected (record { reason = reason; http_status = http_status })

-- `raw.startswith(b"\xef\xbb\xbf")`.
unfoldable pub has_bom : List ℕ → Bool
has_bom (a ∷ b ∷ c ∷ _) = a == 239 && b == 187 && c == 191
has_bom _ = false

-- The encoding that decoded the bytes, or what follows where it did not.
abbrev pub or_next :
    Encoding → Option Text → Judgement (Text × Encoding) → Judgement (Text × Encoding)
or_next enc (some text) next_tried = passed (text, enc)
or_next enc none next_tried = next_tried

-- The loop over the encodings: the first that decodes.
abbrev pub first_decoded : CsvLib → List ℕ → List Encoding → Judgement (Text × Encoding)
first_decoded lib raw [] = reject decode_failed 422
first_decoded lib raw (enc ∷ rest) = or_next enc (lib.decode enc raw) (first_decoded lib raw rest)

-- `decode_strict`.
unfoldable pub decode_strict : CsvLib → List ℕ → Judgement (Text × Encoding)
unfolding has_bom
decode_strict lib raw =
    first_decoded lib raw
      (if has_bom raw then utf_8_sig ∷ utf_8 ∷ cp1250 ∷ [] else utf_8 ∷ cp1250 ∷ [])

-- The separator that occurs most often, the first of the three where several do, and the comma where
-- none occurs.
unfoldable pub most_frequent : Text → ℕ
most_frequent sample =
    let commas = count_where (λ (c : ℕ). c == 44) sample in
    let semicolons = count_where (λ (c : ℕ). c == 59) sample in
    let tabs = count_where (λ (c : ℕ). c == 9) sample in
    if leb semicolons commas && leb tabs commas then 44 else if leb tabs semicolons then 59 else 9

-- `_sniff_delimiter`.
unfoldable pub sniff_delimiter : CsvLib → Text → ℕ
unfolding most_frequent
sniff_delimiter lib sample = elim (lib.sniff sample (44 ∷ 59 ∷ 9 ∷ [])) [
  | some delimiter ↦ delimiter
  | none ↦ most_frequent sample
]

-- A cell that is not blank: `str(c).strip()`.
abbrev pub is_filled : CsvLib → Text → Bool
is_filled lib c = not (text_eq (lib.text.strip c) [])

-- A row that counts: it has a cell that is not blank.
unfoldable pub has_value : CsvLib → List Text → Bool
unfolding text_eq
has_value lib cells = exists_where (is_filled lib) cells

-- The loop of `iter_validated_rows`: the rows that it yields, and the exception that ends it.
unfoldable pub read_rows :
    CsvLib → ℕ → ℕ → List ReadResult → List (List Text) × Option UploadRejected
unfolding has_value
read_rows lib max_records count [] = ([], none)
read_rows lib max_records count (over_field_limit ∷ _) =
    ([], some (record { reason = field_too_large; http_status = 422 }))
read_rows lib max_records count (other_error ∷ _) =
    ([], some (record { reason = parser_error; http_status = 422 }))
read_rows lib max_records count (read_row cells ∷ rest) =
    let skipped = read_rows lib max_records count rest in
    let more = read_rows lib max_records (count + 1) rest in
    if not (has_value lib cells)
    then skipped
    else if ltb max_records (count + 1)
    then ([], some (record { reason = too_many_records; http_status = 413 }))
    else (cells ∷ more.0, more.1)

-- `iter_validated_rows`: the header, the rows after it, and the exception that ends them.
unfoldable pub first_row :
    CsvLib
    → ℕ
    → List ReadResult
    → Judgement (List Text × (List (List Text) × Option UploadRejected))
unfolding read_rows has_value
first_row lib max_records [] = reject header_missing 422
first_row lib max_records (over_field_limit ∷ _) = reject field_too_large 422
first_row lib max_records (other_error ∷ _) = reject parser_error 422
first_row lib max_records (read_row header ∷ rest) =
    if has_value lib header
    then passed (header, read_rows lib max_records 0 rest)
    else reject header_missing 422

unfoldable pub iter_validated_rows :
    CsvLib → Text → ℕ → Judgement (List Text × (List (List Text) × Option UploadRejected))
unfolding first_row sniff_delimiter
iter_validated_rows lib text max_records =
    first_row lib max_records
      (lib.reader max_csv_field_bytes (sniff_delimiter lib (take 8192 text)) text)

-- `_assert_schema`: the required columns are there.
unfoldable pub has_schema : CsvLib → List Text → Bool
unfolding detect_mapping is_mapped
has_schema lib header =
    let m = (detect_mapping lib.text (map lib.text.strip header)).mapping in
    is_mapped revenue m && is_mapped date m

pub record CsvValidationResult : Type 0 where
  pub encoding : Encoding
  pub header : List Text
  pub record_count : ℕ

-- The end of `validate_csv_bytes`, from the rows.
unfoldable pub validate_rows :
    CsvLib
    → Encoding
    → List Text
    → List (List Text) × Option UploadRejected
    → Judgement CsvValidationResult
unfolding has_schema
validate_rows lib encoding header (_, some refusal) = rejected refusal
validate_rows lib encoding header (yielded, none) =
    if has_schema lib header
    then passed (record { encoding = encoding; header = header; record_count = length yielded })
    else reject schema_mismatch 422

infixl 5 ◌>>=◌
abbrev pub ◌>>=◌ : {A B : Type 0} → Judgement A → (A → Judgement B) → Judgement B
passed a >>= f = f a
rejected e >>= f = rejected e

-- `validate_csv_bytes`.
unfoldable pub validate_csv_bytes : CsvLib → ℕ → List ℕ → Judgement CsvValidationResult
unfolding decode_strict iter_validated_rows validate_rows
validate_csv_bytes lib max_records raw =
    if lib.is_blank_bytes raw then reject file_empty 400 else (do
      (text, encoding) ← decode_strict lib raw
      (header, rest) ← iter_validated_rows lib text max_records
      validate_rows lib encoding header rest)
