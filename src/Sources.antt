-- ===== src/Sources.antt =====
-- The columns of a client's file, app/sources/csv_mapper.py: which column is which of the known
-- ones. A text is the list of its code points; what Python's text methods give is `TextLib`.
pub mod One
use daas_engine.Base.{
  Bool, List, Option, [], codes, exists_where, false, find_where, if◌then◌else◌, leb, length, ltb,
  map, none, not, select_where, some, suc, true, zero, ℕ, ◌&&◌, ◌==◌, ◌||◌, ◌∷◌,
}
use daas_engine.RateLimit.{hit}

abbrev pub Text : Type 0
Text = List ℕ

-- `s.strip()`, the ASCII letters of `unicodedata.normalize("NFKD", s)`, and `s.lower()`.
pub record TextLib : Type 0 where
  pub strip : Text → Text
  pub to_ascii : Text → Text
  pub lower : Text → Text

-- The keys of `ALIASES`.
pub data Canon : Type 0 where
  order_id date product category quantity revenue cost profit discount status : Canon

abbrev pub canon_number : Canon → ℕ
canon_number order_id = 0
canon_number date = 1
canon_number product = 2
canon_number category = 3
canon_number quantity = 4
canon_number revenue = 5
canon_number cost = 6
canon_number profit = 7
canon_number discount = 8
canon_number status = 9

-- `ALIASES`, the values.
abbrev pub aliases_of : Canon → List Text
aliases_of order_id = map codes (
    "orderid" ∷ "id" ∷ "orderno" ∷ "ordernumber" ∷ "nrzamowienia" ∷ "numerzamowienia" ∷ "zamowienie"
    ∷ "idzamowienia" ∷ "numer" ∷ "nr" ∷ "transactionid" ∷ "idtransakcji" ∷ "invoice" ∷ "faktura"
    ∷ "nrfaktury" ∷ [])
aliases_of date = map codes (
    "date" ∷ "orderdate" ∷ "data" ∷ "datazamowienia" ∷ "datasprzedazy" ∷ "datazakupu" ∷ "created"
    ∷ "createdat" ∷ "datautworzenia" ∷ "purchasedate" ∷ "datatransakcji" ∷ "czas" ∷ "time"
    ∷ "timestamp" ∷ [])
aliases_of product = map codes (
    "product" ∷ "produkt" ∷ "nazwaproduktu" ∷ "productname" ∷ "item" ∷ "itemname" ∷ "nazwa"
    ∷ "towar" ∷ "title" ∷ "tytul" ∷ "sku" ∷ "nazwatowaru" ∷ "oferta" ∷ "offer" ∷ [])
aliases_of category = map codes (
    "category" ∷ "kategoria" ∷ "productcategory" ∷ "kategoriaproduktu" ∷ "grupa" ∷ "group" ∷ "typ"
    ∷ "type" ∷ "dzial" ∷ "branza" ∷ [])
aliases_of quantity = map codes (
    "quantity" ∷ "qty" ∷ "ilosc" ∷ "liczba" ∷ "sztuk" ∷ "szt" ∷ "units" ∷ "count" ∷ "iloscsztuk"
    ∷ [])
aliases_of revenue = map codes (
    "revenue" ∷ "przychod" ∷ "total" ∷ "amount" ∷ "kwota" ∷ "wartosc" ∷ "wartoscbrutto"
    ∷ "cenabrutto" ∷ "brutto" ∷ "kwotabrutto" ∷ "sales" ∷ "sprzedaz" ∷ "cena" ∷ "price"
    ∷ "ordertotal" ∷ "totalprice" ∷ "wartosczamowienia" ∷ "kwotazamowienia" ∷ "razem" ∷ "sum"
    ∷ "suma" ∷ "netto" ∷ "kwotanetto" ∷ "wartoscnetto" ∷ [])
aliases_of cost = map codes (
    "cost" ∷ "koszt" ∷ "cogs" ∷ "kosztzakupu" ∷ "cenazakupu" ∷ "purchaseprice" ∷ "unitcost"
    ∷ "kosztwlasny" ∷ "kosztjednostkowy" ∷ "buyprice" ∷ "zakup" ∷ [])
aliases_of profit = map codes (
    "profit" ∷ "zysk" ∷ "marza" ∷ "margin" ∷ "marzakwotowa" ∷ "dochod" ∷ "grossprofit"
    ∷ "zyskbrutto" ∷ [])
aliases_of discount = map codes (
    "discount" ∷ "rabat" ∷ "znizka" ∷ "upust" ∷ "discountpct" ∷ "rabatproc" ∷ "promocja" ∷ "kupon"
    ∷ "coupon" ∷ [])
aliases_of status = map codes (
    "status" ∷ "orderstatus" ∷ "statuszamowienia" ∷ "stan" ∷ "state" ∷ "paymentstatus"
    ∷ "statusplatnosci" ∷ [])

-- `ALIASES`, the keys in their order.
abbrev pub canons : List Canon
canons =
    order_id ∷ date ∷ product ∷ category ∷ quantity ∷ revenue ∷ cost ∷ profit ∷ discount ∷ status
    ∷ []

-- `s[:n]`.
abbrev pub take : ℕ → Text → Text
take zero s = []
take (suc n) [] = []
take (suc n) (c ∷ s) = c ∷ take n s

-- `s == t`.
unfoldable pub text_eq : Text → Text → Bool
text_eq [] [] = true
text_eq [] (_ ∷ _) = false
text_eq (_ ∷ _) [] = false
text_eq (a ∷ s) (b ∷ t) = a == b && text_eq s t

-- `t.startswith(s)`.
unfoldable pub starts_with : Text → Text → Bool
starts_with [] t = true
starts_with (_ ∷ _) [] = false
starts_with (a ∷ s) (b ∷ t) = a == b && starts_with s t

-- `s in t`.
unfoldable pub is_in : Text → Text → Bool
unfolding starts_with
is_in s [] = starts_with s []
is_in s (b ∷ t) = starts_with s (b ∷ t) || is_in s t

-- What `_NORM_RE` keeps: a letter a to z or a digit.
abbrev pub is_plain : ℕ → Bool
is_plain c = leb 97 c && leb c 122 || leb 48 c && leb c 57

-- `_norm`.
unfoldable pub norm : TextLib → Text → Text
norm lib s = select_where is_plain (lib.lower (lib.to_ascii s))

-- `mapping`, the newest entry first, and the set `used`.
pub record Mapping : Type 0 where
  pub mapping : List (Canon × Text)
  pub used : List Text

-- `c in used`.
unfoldable pub is_taken : Text → List Text → Bool
unfolding text_eq
is_taken c used = exists_where (text_eq c) used

-- `canon in mapping`.
unfoldable pub is_mapped : Canon → List (Canon × Text) → Bool
is_mapped canon entries =
    exists_where (λ (e : Canon × Text). canon_number e.0 == canon_number canon) entries

-- `if hit`: the entry is made where the column has a name.
abbrev pub non_empty : Option Text → Option Text
non_empty none = none
non_empty (some []) = none
non_empty (some (c ∷ s)) = some (c ∷ s)

-- The first of two answers that is there.
abbrev pub or_else : Option Text → Option Text → Option Text
or_else (some c) _ = some c
or_else none c = c

-- The loop over the aliases: the first alias with a column that meets the test.
abbrev pub first_hit : (Text → Text → Bool) → List Text → List Text → Option Text
first_hit test columns [] = none
first_hit test columns (alias ∷ rest) =
    or_else (non_empty (find_where (test alias) columns)) (first_hit test columns rest)

-- `mapping[canon] = hit` and `used.add(hit)`, where there is a hit.
abbrev pub add_hit : Canon → Option Text → Mapping → Mapping
add_hit canon none m = m
add_hit canon (some hit) m = record { mapping = (canon, hit) ∷ m.mapping; used = hit ∷ m.used }

-- The first test: the normalized column is the alias.
unfoldable pub is_exact : TextLib → Mapping → Text → Text → Bool
unfolding is_taken norm text_eq
is_exact lib m alias c = text_eq (norm lib c) alias && not (is_taken c m.used)

-- The second test: an alias of four letters or more is in the normalized column.
unfoldable pub is_partial : TextLib → Mapping → Text → Text → Bool
unfolding is_taken norm is_in
is_partial lib m alias c =
    not (ltb (length alias) 4) && is_in alias (norm lib c) && not (is_taken c m.used)

-- The first loop of `detect_mapping`.
unfoldable pub exact_pass : TextLib → List Text → List Canon → Mapping → Mapping
unfolding is_exact
exact_pass lib columns [] m = m
exact_pass lib columns (canon ∷ rest) m =
    exact_pass lib columns rest
      (add_hit canon (first_hit (is_exact lib m) columns (aliases_of canon)) m)

-- The second loop, for the known columns that have none yet.
unfoldable pub partial_pass : TextLib → List Text → List Canon → Mapping → Mapping
unfolding is_partial is_mapped
partial_pass lib columns [] m = m
partial_pass lib columns (canon ∷ rest) m = partial_pass lib columns rest (
    if is_mapped canon m.mapping
    then m
    else add_hit canon (first_hit (is_partial lib m) columns (aliases_of canon)) m)

-- `detect_mapping`, without the list of the columns that no known one took.
unfoldable pub detect_mapping : TextLib → List Text → Mapping
unfolding exact_pass partial_pass
detect_mapping lib columns =
    partial_pass lib columns canons
      (exact_pass lib columns canons (record { mapping = []; used = [] }))

-- The columns that no known one took.
unfoldable pub unused_columns : TextLib → List Text → List Text
unfolding detect_mapping is_taken
unused_columns lib columns =
    select_where (λ (c : Text). not (is_taken c (detect_mapping lib columns).used)) columns
