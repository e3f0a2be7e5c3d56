-- ===== src/Operations/Phone.antt =====
-- `normalizePhone` of src/domain/operations.ts.
use Prim.Native.Char.{Char, code}
use poker_management_system.Common.{String, Bool, true, false, ◌&&◌, ◌||◌, leb, ◌==◌, if◌then◌else◌}
use poker_management_system.Common.Text.{is_space, is_digit, js_length}
use poker_management_system.Common.Result.{Result, ok, ◌>>=◌}
use poker_management_system.Operations.Guards.{require_that}

-- The characters of `[\s()-]`
unfoldable pub is_separator : Char → Bool
unfolding is_space
is_separator c = is_space c || code c == b'(' || code c == b')' || code c == b'-'

-- `phone.replace(/[\s()-]/g, "")`
unfoldable pub strip_separators : String → String
strip_separators String.[] = String.[]
strip_separators (String.◌∷◌ c s) =
    let rest = strip_separators s in if is_separator c then rest else String.◌∷◌ c rest

unfoldable pub all_digits : String → Bool
all_digits String.[] = true
all_digits (String.◌∷◌ c s) = is_digit c && all_digits s

-- `[1-9]\d{7,14}` up to the end
unfoldable pub is_subscriber : String → Bool
is_subscriber String.[] = false
is_subscriber (String.◌∷◌ c s) =
    leb b'1' (code c)
    && leb (code c) b'9'
    && all_digits s
    && leb 7 (js_length s)
    && leb (js_length s) 14

-- `/^\+[1-9]\d{7,14}$/`
unfoldable pub is_phone : String → Bool
unfolding is_subscriber all_digits is_digit js_length
is_phone String.[] = false
is_phone (String.◌∷◌ c s) = (code c == b'+') && is_subscriber s

unfoldable pub normalize_phone : String → Result String
unfolding strip_separators is_phone is_separator
normalize_phone phone =
    let normalized = strip_separators phone in
    require_that (is_phone normalized)
      "Use an international phone number, for example +60123456789."
    >>= λ _. ok normalized
