-- ===== src/Companies/Slugs.antt =====
-- app/utils/reference.py: the slug of a company's name, and the random references.
-- `re.sub(r"[^a-z0-9]+", "-", s)` puts one dash for each longest run of other characters.
pub mod Shape
use d_transfert_backend.Base.{
  ℕ, zero, suc, Text, Bool, true, false, [], ◌∷◌, ◌++◌, leb, nat_eq, ◌&&◌, ◌||◌, if◌then◌else◌, map,
}
use mathlib.Core.List.{reverse}
use d_transfert_backend.Host.{Host}
use d_transfert_backend.TextOps.{lower}

abbrev pub is_slug_letter : ℕ → Bool
is_slug_letter c = leb b'a' c && leb c b'z' || leb b'0' c && leb c b'9'

-- The substitution: `in_run` says that the character before was replaced.
abbrev pub dashed : Bool → Text → Text
dashed in_run [] = []
dashed in_run (c ∷ cs) =
    let letter = is_slug_letter c in
    let rest = dashed (if letter then false else true) cs in
    if letter then c ∷ rest else if in_run then rest else b'-' ∷ rest

-- `s.strip("-")`
abbrev pub strip_left : Text → Text
strip_left [] = []
strip_left (c ∷ cs) = let rest = strip_left cs in if nat_eq c b'-' then rest else c ∷ cs

abbrev pub strip_dashes : Text → Text
strip_dashes t = reverse (strip_left (reverse (strip_left t)))

abbrev pub take : Text → ℕ → Text
take [] n = []
take (c ∷ cs) zero = []
take (c ∷ cs) (suc n) = c ∷ take cs n

unfoldable pub slugify_company_name : Host → Text → Text
slugify_company_name host name =
    strip_dashes (take (strip_dashes (dashed false (lower (host.ascii name)))) 20)

-- `f"{prefix}-{suffix}"` with the letters that were drawn
unfoldable pub generate_reference : Text → Text → Text
generate_reference prefix suffix = prefix ++ (b'-' ∷ suffix)
