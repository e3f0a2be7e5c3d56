-- ===== src/Common/Text.antt =====
-- Texts: JavaScript's `===`, `<`, `length`, `trim` and the two classes of characters that the
-- program's patterns name. A text is the native `String`, walked by its code points.
pub mod Laws
use Prim.Native.Nat.{ℕ, ◌+◌}
use Prim.Native.Char.{Char, code}
use Prim.Native.String.{String}
use mathlib.Core.Bool.{Bool, true, false, ◌&&◌, ◌||◌}
use mathlib.Core.Option.{Option, none, some}
use text.Mathlib.Text.{◌==◌ as text_eq}
use poker_management_system.Common.Tests.{ltb, leb, ◌==◌, if◌then◌else◌}

-- `s === t`
infix 50 ◌=ₜ◌
abbrev pub ◌=ₜ◌ : String → String → Bool
s =ₜ t = text_eq s t

-- `s === t` where either may be undefined
abbrev pub opt_eq : Option String → Option String → Bool
opt_eq none none = true
opt_eq none (some t) = false
opt_eq (some s) none = false
opt_eq (some s) (some t) = s =ₜ t

-- A text is falsy when it is empty, an optional text also when it is undefined.
abbrev pub truthy : Option String → Bool
truthy none = false
truthy (some String.[]) = false
truthy (some (String.◌∷◌ c s)) = true

-- `s < t`: the order of the code units. It is that of the code points for the texts that the
-- program orders, which are dates and timestamps in ASCII.
unfoldable pub less : String → String → Bool
less String.[] String.[] = false
less String.[] (String.◌∷◌ d t) = true
less (String.◌∷◌ c s) String.[] = false
less (String.◌∷◌ c s) (String.◌∷◌ d t) = ltb (code c) (code d) || (code c == code d && less s t)

-- `s.length`, in UTF-16 code units
unfoldable pub js_length : String → ℕ
js_length String.[] = 0
js_length (String.◌∷◌ c s) = (if leb 0x10000 (code c) then 2 else 1) + js_length s

-- The characters of `\s`, which are those that `trim` removes.
unfoldable pub is_space : Char → Bool
is_space c =
    let n = code c in
    (leb 9 n && leb n 13)
    || n == 0x20
    || n == 0xa0
    || n == 0x1680
    || (leb 0x2000 n && leb n 0x200a)
    || n == 0x2028
    || n == 0x2029
    || n == 0x202f
    || n == 0x205f
    || n == 0x3000
    || n == 0xfeff

unfoldable pub is_digit : Char → Bool
is_digit c = leb b'0' (code c) && leb (code c) b'9'

abbrev pub is_empty : String → Bool
is_empty String.[] = true
is_empty (String.◌∷◌ c s) = false

unfoldable pub trim_start : String → String
trim_start String.[] = String.[]
trim_start (String.◌∷◌ c s) = let rest = trim_start s in if is_space c then rest else String.◌∷◌ c s

unfoldable pub trim_end : String → String
trim_end String.[] = String.[]
trim_end (String.◌∷◌ c s) =
    let rest = trim_end s in if is_space c && is_empty rest then String.[] else String.◌∷◌ c rest

-- `s.trim()`
unfoldable pub trim : String → String
unfolding trim_start trim_end is_space
trim s = trim_start (trim_end s)
