-- ===== src/Domain/Csv/Reader.antt =====
-- A reader of RFC 4180 for files in which every field is quoted, and what it reads of `csv`.
use Prim.Native.Char.{Char, code}
use Prim.Native.String.{◌++◌ as text_append}
use text.Mathlib.TextLemmas.{nil-append, cons-append, append-nil, append_assoc}
use poker_management_system.Common.{
  String, Bool, true, false, ◌≡◌, refl, ◌∙◌, ap, sym, Option, none, some, List, map, ◌==◌,
  if◌then◌else◌, All,
}
use poker_management_system.Domain.Csv.{
  Cell, cell_text, is_quote, double_quotes, quoted, join, csv_row, csv,
}

-- Where the reader stands: before a field, in it, behind a quote in it, behind a carriage return.
pub data Place : Type 0 where
  before inside behind returned : Place

abbrev pub Table : Type 0
Table = List (List String)

-- The rest of a file, with a character or a text in front of its first field.
unfoldable pub add_text : String → Table → Table
add_text t List.[] = List.[]
add_text t (List.◌∷◌ List.[] rows) = List.◌∷◌ List.[] rows
add_text t (List.◌∷◌ (List.◌∷◌ field row) rows) = List.◌∷◌ (List.◌∷◌ (text_append t field) row) rows

abbrev pub add_field : Table → Table
add_field List.[] = List.[]
add_field (List.◌∷◌ row rows) = List.◌∷◌ (List.◌∷◌ "" row) rows

abbrev pub add_row : Table → Table
add_row rows = List.◌∷◌ (List.◌∷◌ "" List.[]) rows

abbrev pub lift : (Table → Table) → Option Table → Option Table
lift f none = none
lift f (some t) = some (f t)

-- The fields from a place on; the field that is being read is the first one.
unfoldable pub read : Place → String → Option Table
unfolding add_text
read before String.[] = none
read before (String.◌∷◌ c s) = let rest = read inside s in if is_quote c then rest else none
read inside String.[] = none
read inside (String.◌∷◌ c s) =
    let rest = read inside s in
    let end = read behind s in
    if is_quote c then end else lift (add_text (String.◌∷◌ c String.[])) rest
read behind String.[] = some (add_row List.[])
read behind (String.◌∷◌ c s) =
    let same = read inside s in
    let next = read before s in
    let end = read returned s in
    if is_quote c
    then lift (add_text (String.◌∷◌ c String.[])) same
    else if code c == b','
    then lift add_field next
    else if code c == b'\r'
    then end
    else none
read returned String.[] = none
read returned (String.◌∷◌ c s) =
    let next = read before s in if code c == b'\n' then lift add_row next else none

pub one-append : (c : Char) (s : String) → text_append (String.◌∷◌ c String.[]) s ≡ String.◌∷◌ c s
one-append c s = cons-append c String.[] s ∙ ap (String.◌∷◌ c) (nil-append s)

add_text-empty : (o : Option Table) → lift (add_text "") o ≡ o
unfolding add_text
add_text-empty none = refl
add_text-empty (some List.[]) = refl
add_text-empty (some (List.◌∷◌ List.[] rows)) = refl
add_text-empty (some (List.◌∷◌ (List.◌∷◌ field row) rows)) =
    ap (λ f. some (List.◌∷◌ (List.◌∷◌ f row) rows)) (nil-append field)

add_text-cons :
    (c : Char) (t : String) (o : Option Table)
    → lift (add_text (String.◌∷◌ c String.[])) (lift (add_text t) o)
      ≡ lift (add_text (String.◌∷◌ c t)) o
unfolding add_text
add_text-cons c t none = refl
add_text-cons c t (some List.[]) = refl
add_text-cons c t (some (List.◌∷◌ List.[] rows)) = refl
add_text-cons c t (some (List.◌∷◌ (List.◌∷◌ field row) rows)) =
    ap (λ f. some (List.◌∷◌ (List.◌∷◌ f row) rows))
      (one-append c (text_append t field) ∙ sym (cons-append c t field))

-- What the reader does at a quote in a field, and at any other character.
inside-quote :
    (c : Char) (s : String)
    → is_quote c ≡ true
    → read inside (String.◌∷◌ c (String.◌∷◌ c s))
      ≡ lift (add_text (String.◌∷◌ c String.[])) (read inside s)
unfolding read
inside-quote c s e = rw e refl

inside-other :
    (c : Char) (s : String)
    → is_quote c ≡ false
    → read inside (String.◌∷◌ c s) ≡ lift (add_text (String.◌∷◌ c String.[])) (read inside s)
unfolding read
inside-other c s e = rw e refl

inside-end : (rest : String) → read inside (text_append "\"" rest) ≡ read behind rest
unfolding read
inside-end rest = rw (one-append "\"" rest) refl

-- A doubled text is read back, up to the quote that ends it.
read-double_quotes :
    (t rest : String)
    → read inside (text_append (double_quotes t) (text_append "\"" rest))
      ≡ lift (add_text t) (read behind rest)
unfolding double_quotes
read-double_quotes String.[] rest =
    ap (read inside) (nil-append (text_append "\"" rest))
    ∙ (inside-end rest ∙ sym (add_text-empty (read behind rest)))
read-double_quotes (String.◌∷◌ c t) rest =
    let step =
      ap (lift (add_text (String.◌∷◌ c String.[]))) (read-double_quotes t rest)
      ∙ add_text-cons c t (read behind rest) in
    by_test step (is_quote c) refl
  where
    by_test :
        lift
            (add_text (String.◌∷◌ c String.[]))
            (read inside (text_append (double_quotes t) (text_append "\"" rest)))
          ≡ lift (add_text (String.◌∷◌ c t)) (read behind rest)
        → (b : Bool) → is_quote c ≡ b
        → read inside (
            text_append
              (if b
                then String.◌∷◌ c (String.◌∷◌ c (double_quotes t))
                else String.◌∷◌ c (double_quotes t))
              (text_append "\"" rest))
          ≡ lift (add_text (String.◌∷◌ c t)) (read behind rest)
    by_test step true e =
        ap (read inside) (
          cons-append c (String.◌∷◌ c (double_quotes t)) (text_append "\"" rest)
          ∙ ap (String.◌∷◌ c) (cons-append c (double_quotes t) (text_append "\"" rest)))
        ∙ (inside-quote c _ e ∙ step)
    by_test step false e =
        ap (read inside) (cons-append c (double_quotes t) (text_append "\"" rest))
        ∙ (inside-other c _ e ∙ step)

-- A quoted field is read back.
read-quoted :
    (t rest : String)
    → read before (text_append (quoted t) rest) ≡ lift (add_text t) (read behind rest)
unfolding quoted read
read-quoted t rest =
    ap (read before) (
      append_assoc "\"" (text_append (double_quotes t) "\"") rest
      ∙ (one-append "\"" _ ∙ ap (String.◌∷◌ "\"") (append_assoc (double_quotes t) "\"" rest)))
    ∙ read-double_quotes t rest

behind-comma : (s : String) → read behind (text_append "," s) ≡ lift add_field (read before s)
unfolding read
behind-comma s = rw (one-append "," s) refl

behind-line : (s : String) → read behind (text_append "\r\n" s) ≡ lift add_row (read before s)
unfolding read
behind-line s = rw (cons-append "\r" "\n" s, one-append "\n" s) refl

-- A row with a cell is read back, up to its end.
read-row :
    (c : Cell) (row : List Cell) (rest : String) (rows : Table)
    → read behind rest ≡ some (add_row rows)
    → read before (text_append (csv_row (List.◌∷◌ c row)) rest)
      ≡ some (List.◌∷◌ (map cell_text (List.◌∷◌ c row)) rows)
unfolding csv_row join add_text
read-row c List.[] rest rows h =
    read-quoted (cell_text c) rest
    ∙ (ap (lift (add_text (cell_text c))) h
        ∙ ap (λ f. some (List.◌∷◌ (List.◌∷◌ f List.[]) rows)) (append-nil (cell_text c)))
read-row c (List.◌∷◌ d row) rest rows h =
    let tail = csv_row (List.◌∷◌ d row) in
    ap (read before) (
      append_assoc (quoted (cell_text c)) (text_append "," tail) rest
      ∙ ap (text_append (quoted (cell_text c))) (append_assoc "," tail rest))
    ∙ (read-quoted (cell_text c) (text_append "," (text_append tail rest))
        ∙ (ap (lift (add_text (cell_text c))) (
              behind-comma (text_append tail rest)
              ∙ ap (lift add_field) (read-row d row rest rows h))
            ∙ ap (λ f. some (List.◌∷◌ (List.◌∷◌ f (map cell_text (List.◌∷◌ d row))) rows))
                (append-nil (cell_text c))))

-- A row has a cell.
abbrev pub HasCell : List Cell → Type 0
HasCell List.[] = ⊥
HasCell (List.◌∷◌ c row) = Unit

-- A file that `csv` writes is read back by RFC 4180: of a first row and further rows that have a cell
-- each, the reader finds the texts of the cells, with every comma, quote and line break in them.
pub read-csv :
    (row : List Cell) (rows : List (List Cell))
    → HasCell row
    → All HasCell rows
    → read before (csv (List.◌∷◌ row rows)) ≡ some (map (map cell_text) (List.◌∷◌ row rows))
unfolding csv join read
read-csv List.[] rows h k = absurd h
read-csv (List.◌∷◌ c row) List.[] h k =
    ap (read before) (sym (append-nil (csv_row (List.◌∷◌ c row)))) ∙ read-row c row "" List.[] refl
read-csv (List.◌∷◌ c row) (List.◌∷◌ next rows) h (n, k) =
    read-row c row (text_append "\r\n" (csv (List.◌∷◌ next rows)))
      (map (map cell_text) (List.◌∷◌ next rows))
      (behind-line (csv (List.◌∷◌ next rows)) ∙ ap (lift add_row) (read-csv next rows n k))
