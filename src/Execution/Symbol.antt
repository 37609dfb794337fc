-- ===== src/Execution/Symbol.antt =====
-- Symbols of the shape "BASE/QUOTE": `symbol.split("/")` and `symbol.partition("/")[0]`.
use Prim.Native.Char.{Char, code}
use Prim.Native.String.{◌++◌}
use text.Mathlib.TextLemmas.{nil-append, cons-append}
use neuravex.Prelude.{
  ◌≡◌, refl, String, Bool, false, ◌||◌, Option, none, some, nat_eq, if◌then◌else◌, arith,
}

abbrev is_slash : Char → Bool
is_slash c = nat_eq (code c) b'/'

-- The text up to the first slash, and the text behind it if there is one.
unfoldable pub base_of : String → String
base_of String.[] = String.[]
base_of (String.◌∷◌ c s) = if is_slash c then String.[] else String.◌∷◌ c (base_of s)

unfoldable pub rest_of : String → Option String
rest_of String.[] = none
rest_of (String.◌∷◌ c s) = if is_slash c then some s else rest_of s

unfoldable pub has_slash : String → Bool
has_slash String.[] = false
has_slash (String.◌∷◌ c s) = is_slash c || has_slash s

abbrev pair : String → Option String → Option (String × String)
pair base none = none
pair base (some quote) = if has_slash quote then none else some (base, quote)

-- `base, quote = symbol.split("/")`; `none` is the ValueError of too few or too many parts.
unfoldable pub split_symbol : String → Option (String × String)
unfolding base_of rest_of has_slash
split_symbol s = pair (base_of s) (rest_of s)

-- f"{base}/{quote}"
abbrev pub symbol_of : String → String → String
symbol_of base quote = base ++ ("/" ++ quote)

-- Where the base holds no slash, the base of f"{base}/{quote}" is the base.
pub base_of-symbol_of :
    (base quote : String) → has_slash base ≡ false → base_of (symbol_of base quote) ≡ base
unfolding base_of has_slash
base_of-symbol_of String.[] quote h = rw nil-append (rw cons-append refl)
base_of-symbol_of (String.◌∷◌ c s) quote h =
    rw (cons-append c s ("/" ++ quote)) (ground (arith, base_of-symbol_of s quote))

rest_of-symbol_of :
    (base quote : String) → has_slash base ≡ false → rest_of (symbol_of base quote) ≡ some quote
unfolding rest_of has_slash
rest_of-symbol_of String.[] quote h = rw nil-append (rw cons-append (rw nil-append refl))
rest_of-symbol_of (String.◌∷◌ c s) quote h =
    rw (cons-append c s ("/" ++ quote)) (ground (arith, rest_of-symbol_of s quote))

-- f"{base}/{quote}" splits into its two parts, where none of them holds a slash.
pub split_symbol-symbol_of :
    (base quote : String)
    → has_slash base ≡ false
    → has_slash quote ≡ false
    → split_symbol (symbol_of base quote) ≡ some (base, quote)
unfolding split_symbol
split_symbol-symbol_of base quote plain last =
    rw (base_of-symbol_of base quote plain, rest_of-symbol_of base quote plain, last) refl
