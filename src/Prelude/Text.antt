-- ===== src/Prelude/Text.antt =====
-- The code points of a text and bounded character classes, which the source's regular expressions
-- `^[...]{lo,hi}$` are. A Go string that is not valid UTF-8 is not represented.
use Prim.Native.Nat.{ℕ}
use Prim.Native.Char.{code}
use Prim.Native.String.{String, ◌++◌}
use mathlib.Core.Bool.{Bool, false, ◌&&◌, ◌||◌}
use mathlib.Core.List.{List, [], ◌∷◌}
use herdr_distributed_mesh.Prelude.Tests.{leb, ltb, nat_beq}
use herdr_distributed_mesh.Prelude.Lists.{length, all}

-- s + t
abbrev pub joined : String → String → String
joined s t = s ++ t

abbrev pub codes : String → List ℕ
codes String.[] = []
codes (String.◌∷◌ c s) = code c ∷ codes s

abbrev pub in_range : ℕ → ℕ → ℕ → Bool
in_range lo hi c = leb lo c && leb c hi

abbrev pub is_digit : ℕ → Bool
is_digit = in_range b'0' b'9'

abbrev pub is_lower : ℕ → Bool
is_lower = in_range b'a' b'z'

abbrev pub is_upper : ℕ → Bool
is_upper = in_range b'A' b'Z'

-- [a-f0-9]
abbrev pub is_hex : ℕ → Bool
is_hex c = in_range b'a' b'f' c || is_digit c

-- [A-Za-z0-9]
abbrev pub is_alnum : ℕ → Bool
is_alnum c = is_upper c || is_lower c || is_digit c

-- ^[class]{lo,hi}$
abbrev pub matches : (ℕ → Bool) → ℕ → ℕ → List ℕ → Bool
matches class lo hi cs = leb lo (length cs) && leb (length cs) hi && all class cs

-- ^[head][class]{0,hi}$
abbrev pub matches_head : (ℕ → Bool) → (ℕ → Bool) → ℕ → List ℕ → Bool
matches_head head class hi [] = false
matches_head head class hi (c ∷ cs) = head c && leb (length cs) hi && all class cs

-- unicode.IsControl: category Cc
abbrev pub is_control : ℕ → Bool
is_control c = ltb c 32 || in_range 127 159 c

-- unicode.IsSpace, by which strings.TrimSpace trims
abbrev pub is_space : ℕ → Bool
is_space c =
    in_range 9 13 c
    || nat_beq c 32
    || nat_beq c 0x85
    || nat_beq c 0xa0
    || nat_beq c 0x1680
    || in_range 0x2000 0x200a c
    || nat_beq c 0x2028
    || nat_beq c 0x2029
    || nat_beq c 0x202f
    || nat_beq c 0x205f
    || nat_beq c 0x3000

-- strings.TrimSpace(s) == ""
abbrev pub is_blank : String → Bool
is_blank s = all is_space (codes s)
