-- ===== src/Base/Text.antt =====
-- Texts as code points: the closed regular expressions and `strings.TrimSpace` of the source.
use Prim.Native.Nat.{ℕ}
use Prim.Native.Char.{code}
use Prim.Native.String.{String}
use mathlib.Core.Bool.{Bool, true, ◌&&◌, ◌||◌}
use mathlib.Core.List.{List, [], ◌∷◌}
use basic.Base.Logic.{leb, ◌==◌}
use basic.Base.Lists.{length}

pub codes : String → List ℕ
codes String.[] = []
codes (String.◌∷◌ c s) = code c ∷ codes s

-- `[a-f0-9]`
pub is_hex : ℕ → Bool
is_hex c = (leb b'a' c && leb c b'f') || (leb b'0' c && leb c b'9')

pub all_hex : List ℕ → Bool
unfolding is_hex
all_hex [] = true
all_hex (c ∷ cs) = is_hex c && all_hex cs

-- `^[a-f0-9]{n}$`
unfoldable pub matches_hex : ℕ → String → Bool
unfolding codes all_hex
matches_hex n s = let cs = codes s in all_hex cs && length cs == n

-- `unicode.IsSpace`: the code points that `strings.TrimSpace` removes.
pub is_space : ℕ → Bool
is_space c =
    (leb 9 c && leb c 13)
    || c == 0x20
    || c == 0x85
    || c == 0xa0
    || c == 0x1680
    || (leb 0x2000 c && leb c 0x200a)
    || c == 0x2028
    || c == 0x2029
    || c == 0x202f
    || c == 0x205f
    || c == 0x3000

pub all_space : List ℕ → Bool
unfolding is_space
all_space [] = true
all_space (c ∷ cs) = is_space c && all_space cs

-- `strings.TrimSpace(s) == ""`
unfoldable pub is_blank : String → Bool
unfolding codes all_space
is_blank s = all_space (codes s)
