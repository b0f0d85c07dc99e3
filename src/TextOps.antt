-- ===== src/TextOps.antt =====
-- Python's `str.strip` and `str.lower`, over the code points of ASCII text: other letters and
-- spaces are left as they are.
use Prim.Native.Char.{code}
use Prim.Native.String.{[] as empty_text, ◌∷◌ as cons_text}
use d_transfert_backend.Base.{
  ℕ, ◌+◌, Bool, [], ◌∷◌, String, Text, leb, nat_eq, ◌&&◌, ◌||◌, map, if◌then◌else◌,
}
use mathlib.Core.List.{reverse}

abbrev pub codes : String → Text
codes empty_text = []
codes (cons_text c s) = code c ∷ codes s

abbrev pub is_space : ℕ → Bool
is_space c = nat_eq c 32 || (leb 9 c && leb c 13 || leb 28 c && leb c 31)

abbrev pub lower_code : ℕ → ℕ
lower_code c = if leb b'A' c && leb c b'Z' then c + 32 else c

abbrev pub lower : Text → Text
lower = map lower_code

abbrev pub lstrip : Text → Text
lstrip [] = []
lstrip (c ∷ cs) = if is_space c then lstrip cs else c ∷ cs

abbrev pub strip : Text → Text
strip t = reverse (lstrip (reverse (lstrip t)))
