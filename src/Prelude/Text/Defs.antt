-- ===== src/Prelude/Text/Defs.antt =====
-- The operations of `str` and `u16` from the standard library that the program uses.
use Prim.Native.Nat.{ℕ, zero, suc, ◌+◌, ◌-◌, ◌*◌, ◌/◌, ◌%◌}
use Prim.Native.Char.{code}
use Prim.Native.String.{String}
use mathlib.Core.Bool.{Bool, true, false, ◌&&◌, ◌||◌}
use mathlib.Core.Option.{Option, none, some}
use mathlib.Core.List.{List, [], ◌∷◌, ◌++◌, map, reverse}
use bifrost_core.Prelude.Tests.{ltb, leb, ◌==◌, if◌then◌else◌}

abbrev pub Str : Type 0
Str = List ℕ

-- An ASCII literal.
abbrev pub codes : String → Str
codes String.[] = []
codes (String.◌∷◌ c s) = code c ∷ codes s

-- The bytes of a code point in UTF-8.
abbrev utf8_of : ℕ → Str
utf8_of c =
    if ltb c 128
    then c ∷ []
    else if ltb c 2048
    then (192 + c / 64) ∷ (128 + c % 64) ∷ []
    else if ltb c 65536
    then (224 + c / 4096) ∷ (128 + c / 64 % 64) ∷ (128 + c % 64) ∷ []
    else (240 + c / 262144) ∷ (128 + c / 4096 % 64) ∷ (128 + c / 64 % 64) ∷ (128 + c % 64) ∷ []

-- Any other literal.
abbrev pub utf8 : String → Str
utf8 String.[] = []
utf8 (String.◌∷◌ c s) = utf8_of (code c) ++ utf8 s

unfoldable pub str_eq : Str → Str → Bool
str_eq [] [] = true
str_eq (a ∷ s) (b ∷ t) = a == b && str_eq s t
str_eq _ _ = false

unfoldable pub starts_with : Str → Str → Bool
starts_with s [] = true
starts_with [] (b ∷ t) = false
starts_with (a ∷ s) (b ∷ t) = a == b && starts_with s t

-- `s.contains(t)`
unfoldable pub contains : Str → Str → Bool
unfolding starts_with
contains [] t = starts_with [] t
contains (a ∷ s) t = starts_with (a ∷ s) t || contains s t

abbrev pub lower : ℕ → ℕ
lower c = if leb b'A' c && leb c b'Z' then c + 32 else c

-- `to_lowercase` on ASCII text.
unfoldable pub to_lowercase : Str → Str
to_lowercase = map lower

abbrev cons_head : ℕ → List Str → List Str
cons_head a [] = (a ∷ []) ∷ []
cons_head a (p ∷ ps) = (a ∷ p) ∷ ps

-- `s.split(sep)` at one byte: never empty.
unfoldable pub split : ℕ → Str → List Str
split sep [] = [] ∷ []
split sep (a ∷ s) = let rest = split sep s in if a == sep then [] ∷ rest else cons_head a rest

-- `parts.join(sep)`
unfoldable pub join : Str → List Str → Str
join sep [] = []
join sep (p ∷ []) = p
join sep (p ∷ q ∷ ps) = p ++ (sep ++ join sep (q ∷ ps))

abbrev cons_fst : ℕ → Str × Str → Str × Str
cons_fst a (x, y) = (a ∷ x, y)

-- `s.rfind(sep)`, as the text before the last `sep` and the text after it.
unfoldable pub rsplit_once : ℕ → Str → Option (Str × Str)
rsplit_once sep [] = none
rsplit_once sep (a ∷ s) = elim (rsplit_once sep s) [
  | some (x, y) ↦ some (a ∷ x, y)
  | none ↦ if a == sep then some ([], s) else none
]

abbrev is_space : ℕ → Bool
is_space c = c == 32 || (leb 9 c && leb c 13)

unfoldable pub trim_start : Str → Str
trim_start [] = []
trim_start (a ∷ s) = let rest = trim_start s in if is_space a then rest else a ∷ s

-- `trim` on ASCII text.
unfoldable pub trim : Str → Str
unfolding trim_start
trim s = reverse (trim_start (reverse (trim_start s)))

-- `Display` of an unsigned integer below 10 ^ 20, which has at most twenty digits.
unfoldable pub digits : ℕ → ℕ → Str
digits zero n = []
digits (suc f) n =
    let rest = digits f (n / 10) in
    if ltb n 10 then (n + b'0') ∷ [] else rest ++ ((n % 10) + b'0') ∷ []

unfoldable pub show : ℕ → Str
unfolding digits
show n = digits 20 n

unfoldable pub scan_u16 : ℕ → Str → Option ℕ
scan_u16 acc [] = some acc
scan_u16 acc (c ∷ s) =
    let n = acc * 10 + (c - b'0') in
    let rest = scan_u16 n s in if leb b'0' c && leb c b'9' && ltb n 65536 then rest else none

-- `parse::<u16>`: digits, after an optional plus sign.
unfoldable pub parse_u16 : Str → Option ℕ
unfolding scan_u16
parse_u16 [] = none
parse_u16 (c ∷ []) = scan_u16 0 (c ∷ [])
parse_u16 (c ∷ d ∷ s) = if c == b'+' then scan_u16 0 (d ∷ s) else scan_u16 0 (c ∷ d ∷ s)
