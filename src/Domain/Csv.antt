-- ===== src/Domain/Csv.antt =====
-- `csv` of src/domain/money.ts. A numeric value is given by the text that `String` makes of it.
pub mod Reader
pub mod Guard
mod Tests
use Prim.Native.Char.{Char, code}
use Prim.Native.String.{◌++◌ as text_append}
use poker_management_system.Common.{
  String, Bool, true, false, ◌&&◌, ◌||◌, List, map, ◌==◌, if◌then◌else◌,
}
use poker_management_system.Common.Text.{is_space}

pub data Cell : Type 0 where
  text : String → Cell
  number : String → Cell

-- `[=+\-@＝＋－＠]`
unfoldable pub starts_formula : Char → Bool
starts_formula c =
    let n = code c in
    n == b'='
    || n == b'+'
    || n == b'-'
    || n == b'@'
    || n == 0xff1d
    || n == 0xff0b
    || n == 0xff0d
    || n == 0xff20

-- `/^[\s]*[=+\-@＝＋－＠]/u`
unfoldable pub is_formula : String → Bool
unfolding starts_formula is_space
is_formula String.[] = false
is_formula (String.◌∷◌ c s) = starts_formula c || (is_space c && is_formula s)

-- The text of a cell: what a spreadsheet program could take for a formula gets a tab in front.
unfoldable pub cell_text : Cell → String
unfolding is_formula
cell_text (text value) = if is_formula value then text_append "\t" value else value
cell_text (number value) = value

abbrev pub is_quote : Char → Bool
is_quote c = code c == b'"'

-- `text.replaceAll('"', '""')`
unfoldable pub double_quotes : String → String
double_quotes String.[] = String.[]
double_quotes (String.◌∷◌ c s) =
    let rest = double_quotes s in
    if is_quote c then String.◌∷◌ c (String.◌∷◌ c rest) else String.◌∷◌ c rest

unfoldable pub quoted : String → String
unfolding double_quotes
quoted s = text_append "\"" (text_append (double_quotes s) "\"")

-- `xs.join(separator)`
unfoldable pub join : String → List String → String
join separator List.[] = ""
join separator (List.◌∷◌ s List.[]) = s
join separator (List.◌∷◌ s (List.◌∷◌ t rest)) =
    text_append s (text_append separator (join separator (List.◌∷◌ t rest)))

unfoldable pub csv_row : List Cell → String
unfolding cell_text quoted join
csv_row row = join "," (map (λ c. quoted (cell_text c)) row)

unfoldable pub csv : List (List Cell) → String
unfolding csv_row join
csv rows = join "\r\n" (map csv_row rows)
