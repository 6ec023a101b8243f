-- ===== src/Common/Text.antt =====
-- Text that the services change or compare letter by letter, as the list of its code points.
use Prim.Native.Char.{code}
use Prim.Native.String.{String}
use coloanex_prod.Common.{
  Bool, List, [], false, if◌then◌else◌, leb, map, true, ℕ, ◌&&◌, ◌-◌, ◌==◌, ◌∷◌,
}

abbrev pub codes : String → List ℕ
codes String.[] = []
codes (String.◌∷◌ c s) = code c ∷ codes s

abbrev pub text_eq : List ℕ → List ℕ → Bool
text_eq [] [] = true
text_eq [] (b ∷ bs) = false
text_eq (a ∷ as') [] = false
text_eq (a ∷ as') (b ∷ bs) = a == b && text_eq as' bs

-- `toUpperCase()` on ASCII letters.
abbrev pub upper_code : ℕ → ℕ
upper_code c = if leb b'a' c && leb c b'z' then c - 32 else c

abbrev pub upper : List ℕ → List ℕ
upper s = map upper_code s
