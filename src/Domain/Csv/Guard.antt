-- ===== src/Domain/Csv/Guard.antt =====
-- What the guard of `csv` in src/domain/money.ts makes of a text that a spreadsheet program could
-- take for a formula.
use mathlib.Core.Bool.{true≢false}
use Prim.Native.Char.{Char, code}
use Prim.Native.String.{◌++◌ as text_append}
use poker_management_system.Common.{
  ℕ, ◌≡◌, ◌≢◌, refl, sym, ap, ◌∙◌, String, Bool, true, false, ◌||◌, ◌&&◌, List, [], ◌∷◌, any, ◌==◌,
  ◌⊎◌, inl, inr, Bool-cases, if◌then◌else◌, arith,
}
use poker_management_system.Common.Text.{is_space, trim_start}
use poker_management_system.Domain.Csv.Reader.{one-append}
use poker_management_system.Domain.Csv.{text, starts_formula, is_formula, cell_text}

-- The signs = + - @ and their wide forms.
abbrev formula_signs : List ℕ
formula_signs = 61 ∷ 43 ∷ 45 ∷ 64 ∷ 65309 ∷ 65291 ∷ 65293 ∷ 65312 ∷ []

-- A text that begins with a sign of a formula.
abbrev pub begins_with_sign : String → Bool
begins_with_sign String.[] = false
begins_with_sign (String.◌∷◌ c s) = any (λ sign. code c == sign) formula_signs

abbrev pub begins_with_tab : String → Bool
begins_with_tab String.[] = false
begins_with_tab (String.◌∷◌ c s) = code c == 9

space_no_sign : (c : Char) → is_space c ≡ true → starts_formula c ≡ false
unfolding starts_formula is_space
space_no_sign c h = ground arith

is_sign : (c : Char) (s : String) → starts_formula c ≡ begins_with_sign (String.◌∷◌ c s)
unfolding starts_formula
is_sign c s = ground arith

or_false : (b : Bool) → (b || false) ≡ b
or_false true = refl
or_false false = refl

-- The guard looks at the first character that is no white space.
is_formula_step :
    (c : Char) (s : String) (space : Bool)
    → is_space c ≡ space
    → is_formula s ≡ begins_with_sign (trim_start s)
    → (starts_formula c || (space && is_formula s))
      ≡ begins_with_sign (if space then trim_start s else String.◌∷◌ c s)
is_formula_step c s true p h = rw (space_no_sign c p) h
is_formula_step c s false p h = or_false _ ∙ is_sign c s

is_formula-trim_start : (s : String) → is_formula s ≡ begins_with_sign (trim_start s)
unfolding is_formula trim_start
is_formula-trim_start String.[] = refl
is_formula-trim_start (String.◌∷◌ c s) =
    is_formula_step c s (is_space c) refl (is_formula-trim_start s)

with_tab : (a : String) → text_append "\t" a ≡ String.◌∷◌ "\t" a
with_tab = one-append "\t"

-- The text of a text cell begins with a tab, or its first character that is no white space is none of
-- = + - @ and their wide forms.
pub cell_text-inert :
    (value : String)
    → (begins_with_tab (cell_text (text value)) ≡ true)
      ⊎ (begins_with_sign (trim_start (cell_text (text value))) ≡ false)
unfolding cell_text
cell_text-inert value = elim (Bool-cases (is_formula value)) [
  | inl y ↦ inl (rw (y, with_tab value) refl)
  | inr n ↦ inr (rw n (sym (is_formula-trim_start value) ∙ n))
]

guarded-is_formula : (a : String) → is_formula a ≡ true → is_formula (String.◌∷◌ "\t" a) ≡ true
unfolding is_formula is_space starts_formula
guarded-is_formula a h = h

abbrev tail : String → String
tail String.[] = String.[]
tail (String.◌∷◌ c s) = s

-- The guard loses nothing: two texts of which the cells have one text are the same.
pub cell_text-injective : (a b : String) → cell_text (text a) ≡ cell_text (text b) → a ≡ b
unfolding cell_text
cell_text-injective a b h = by_guards (is_formula a) (is_formula b) refl refl h
  where
    apart : (x y : String) → is_formula x ≡ true → is_formula y ≡ false → text_append "\t" x ≢ y
    apart x y p q e =
        true≢false (sym (guarded-is_formula x p) ∙ ap is_formula (sym (with_tab x) ∙ e) ∙ q)

    by_guards :
        (x y : Bool)
        → is_formula a ≡ x
        → is_formula b ≡ y
        → (if x then text_append "\t" a else a) ≡ (if y then text_append "\t" b else b)
        → a ≡ b
    by_guards true true p q e = ap tail (sym (with_tab a) ∙ e ∙ with_tab b)
    by_guards true false p q e = absurd (apart a b p q e)
    by_guards false true p q e = absurd (apart b a q p (sym e))
    by_guards false false p q e = e
