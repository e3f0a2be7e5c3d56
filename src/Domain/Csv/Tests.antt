-- ===== src/Domain/Csv/Tests.antt =====
-- A table with a comma, quotes, a line break and a formula in its cells.
use poker_management_system.Common.{◌≡◌, ◌⊎◌, String, refl, true, false, some, List, [], ◌∷◌, map}
use poker_management_system.Domain.Csv.{Cell, text, number, cell_text, csv}
use poker_management_system.Domain.Csv.Guard.{
  begins_with_tab, begins_with_sign, cell_text-inert, cell_text-injective,
}
use poker_management_system.Common.Text.{trim_start}
use poker_management_system.Domain.Csv.Reader.{before, read, read-csv}

abbrev headings : List Cell
headings = text "Name, \"nick\"" ∷ text "Sen" ∷ []

abbrev entries : List (List Cell)
entries = (text "=SUM(A1)\r\nx" ∷ number "-1200" ∷ []) ∷ []

written :
    csv (headings ∷ entries) ≡ "\"Name, \"\"nick\"\"\",\"Sen\"\r\n\"\t=SUM(A1)\r\nx\",\"-1200\""
unfolding csv
written = refl

texts_lem :
    map (map cell_text) (headings ∷ entries)
    ≡ ("Name, \"nick\"" ∷ "Sen" ∷ []) ∷ ("\t=SUM(A1)\r\nx" ∷ "-1200" ∷ []) ∷ []
unfolding cell_text
texts_lem = refl

read-csv_example :
    read before (csv (headings ∷ entries)) ≡ some (map (map cell_text) (headings ∷ entries))
read-csv_example = read-csv headings entries tt (tt, tt)

-- A formula behind a space gets the tab, and a text with the tab gets a second one.
guards_lem :
    map cell_text (text " =1" ∷ text "\t=1" ∷ text "a=1" ∷ []) ≡ "\t =1" ∷ "\t\t=1" ∷ "a=1" ∷ []
unfolding cell_text
guards_lem = refl

cell_text-inert_example :
    (begins_with_tab (cell_text (text " =1")) ≡ true)
    ⊎ (begins_with_sign (trim_start (cell_text (text " =1"))) ≡ false)
cell_text-inert_example = cell_text-inert " =1"

abbrev formula : String
formula = " =1"

cell_text-injective_example : formula ≡ formula
cell_text-injective_example = cell_text-injective formula formula refl
