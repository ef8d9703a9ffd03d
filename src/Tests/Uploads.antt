-- ===== src/Tests/Uploads.antt =====
-- The theorems on uploads, on a small file with a simple reader of CSV.
use daas_engine.Base.{
  ◌≤◌, not, count_where, find_where, select_where, List, [], codes, exists_where, if◌then◌else◌,
  map, none, refl, some, ℕ, ◌++◌, ◌==◌, ◌↔◌, ◌∷◌, ◌≡◌,
}
use daas_engine.Sources.One.{detect_mapping-one, takes}
use daas_engine.Sources.{detect_mapping, text_eq, Text, TextLib}
use daas_engine.Uploads.{CsvLib, CsvValidationResult, passed, read_row, utf_8, validate_csv_bytes}
use daas_engine.Uploads.Accepted.{Accepts, validate_csv_bytes-Accepts}

-- Splits a text at a separator.
unfoldable add_front : ℕ → List Text → List Text
add_front c [] = (c ∷ []) ∷ []
add_front c (s ∷ rest) = (c ∷ s) ∷ rest

abbrev split_at : ℕ → Text → List Text
unfolding add_front
split_at separator [] = [] ∷ []
split_at separator (c ∷ s) =
    let rest = split_at separator s in if c == separator then [] ∷ rest else add_front c rest

abbrev plain_text : TextLib
plain_text = record { strip = λ s. s; to_ascii = λ s. s; lower = λ s. s }

abbrev plain_csv : CsvLib
plain_csv = record {
  text = plain_text;
  sniff = λ sample delimiters. none;
  reader =
      λ field_limit delimiter s. map (λ line. read_row (split_at delimiter line)) (split_at 10 s);
  decode = λ encoding raw. some raw;
  is_blank_bytes = λ raw. not (exists_where (λ (b : ℕ). not (b == 32)) raw);
}

abbrev sales_file : List ℕ
sales_file = codes "orderdate,total" ++ (10 ∷ codes "monday,20")

abbrev sales_result : CsvValidationResult
sales_result = record {
  encoding = utf_8;
  header = map codes ("orderdate" ∷ "total" ∷ []);
  record_count = 1;
}

sales_file_accepted : validate_csv_bytes plain_csv 1 sales_file ≡ passed sales_result
unfolding validate_csv_bytes add_front exists_where count_where find_where select_where
sales_file_accepted = refl

validate_csv_bytes-Accepts_example :
    (validate_csv_bytes plain_csv 1 sales_file ≡ passed sales_result)
    ↔ Accepts plain_csv 1 sales_file sales_result
validate_csv_bytes-Accepts_example = validate_csv_bytes-Accepts plain_csv 1 sales_file sales_result

detect_mapping-one_example :
    count_where
      (takes (codes "total"))
      (detect_mapping plain_text (map codes ("orderdate" ∷ "total" ∷ []))).mapping
    ≤ (if exists_where (text_eq (codes "total")) (map codes ("orderdate" ∷ "total" ∷ []))
        then 1
        else 0)
detect_mapping-one_example =
    detect_mapping-one plain_text (map codes ("orderdate" ∷ "total" ∷ [])) (codes "total")
