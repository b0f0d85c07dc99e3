-- ===== src/Companies/Slugs/Shape.antt =====
-- app/utils/reference.py, slugify_company_name: what a slug looks like.
use mathlib.Core.List.{reverse, reverse-cons, reverse-reverse}
use d_transfert_backend.Base.{
  ℕ, zero, suc, ◌≤◌, ◌≡◌, refl, sym, ap, ◌∙◌, Text, Bool, true, false, ◌&&◌, ◌||◌, [], ◌∷◌, ◌++◌,
  nat_eq, all, length, length-append, arith,
}
use d_transfert_backend.Host.{Host}
use d_transfert_backend.TextOps.{lower}
use d_transfert_backend.Companies.Slugs.{
  is_slug_letter, dashed, strip_left, strip_dashes, take, slugify_company_name,
}

abbrev is_dash : ℕ → Bool
is_dash c = nat_eq c b'-'

abbrev pub is_slug_code : ℕ → Bool
is_slug_code c = is_slug_letter c || is_dash c

abbrev pub starts_with_dash : Text → Bool
starts_with_dash [] = false
starts_with_dash (c ∷ cs) = is_dash c

abbrev pub ends_with_dash : Text → Bool
ends_with_dash [] = false
ends_with_dash (c ∷ []) = is_dash c
ends_with_dash (c ∷ d ∷ cs) = ends_with_dash (d ∷ cs)

ends-append : (t : Text) (c : ℕ) → ends_with_dash (t ++ c ∷ []) ≡ is_dash c
ends-append [] c = refl
ends-append (d ∷ []) c = refl
ends-append (d ∷ e ∷ t) c = ends-append (e ∷ t) c

ends-reverse : (t : Text) → ends_with_dash (reverse t) ≡ starts_with_dash t
ends-reverse [] = refl
ends-reverse (c ∷ t) = ap ends_with_dash (reverse-cons c t) ∙ ends-append (reverse t) c

starts-reverse : (t : Text) → starts_with_dash (reverse t) ≡ ends_with_dash t
starts-reverse t = sym (ends-reverse (reverse t)) ∙ ap ends_with_dash (reverse-reverse t)

starts-strip : (t : Text) → starts_with_dash (strip_left t) ≡ false
starts-strip [] = refl
starts-strip (c ∷ t) = ground (arith, starts-strip t)

-- What is stripped on the left keeps its end.
ends-strip : (t : Text) → ends_with_dash t ≡ false → ends_with_dash (strip_left t) ≡ false
ends-strip [] h = refl
ends-strip (c ∷ []) h = ground arith
ends-strip (c ∷ d ∷ t) h = ground (arith, ends-strip (d ∷ t))

strip-starts : (t : Text) → starts_with_dash (strip_dashes t) ≡ false
strip-starts t =
    starts-reverse (strip_left (reverse (strip_left t)))
    ∙ ends-strip (reverse (strip_left t)) (ends-reverse (strip_left t) ∙ starts-strip t)

strip-ends : (t : Text) → ends_with_dash (strip_dashes t) ≡ false
strip-ends t =
    ends-reverse (strip_left (reverse (strip_left t))) ∙ starts-strip (reverse (strip_left t))

length-strip_left : (t : Text) → length (strip_left t) ≤ length t
length-strip_left [] = omega arith
length-strip_left (c ∷ t) = ground (arith, length-strip_left t)

length-reversed : (t : Text) → length (reverse t) ≡ length t
length-reversed [] = refl
length-reversed (c ∷ t) =
    omega
      (arith, ap length (reverse-cons c t), length-append (reverse t) (c ∷ []), length-reversed t)

length-strip : (t : Text) → length (strip_dashes t) ≤ length t
length-strip t = omega (
  arith,
  length-reversed (strip_left (reverse (strip_left t))),
  length-strip_left (reverse (strip_left t)),
  length-reversed (strip_left t),
  length-strip_left t,
)

length-take : (t : Text) (n : ℕ) → length (take t n) ≤ n
length-take [] n = omega arith
length-take (c ∷ t) zero = omega arith
length-take (c ∷ t) (suc n) = omega (arith, length-take t n)

all-append : (t u : Text) → all is_slug_code (t ++ u) ≡ all is_slug_code t && all is_slug_code u
all-append [] u = refl
all-append (c ∷ t) u = ground (arith, all-append t u)

and_swap : (a b : Bool) → a && (b && true) ≡ b && a
and_swap true true = refl
and_swap true false = refl
and_swap false true = refl
and_swap false false = refl

all-reverse : (t : Text) → all is_slug_code (reverse t) ≡ all is_slug_code t
all-reverse [] = refl
all-reverse (c ∷ t) =
    ap (all is_slug_code) (reverse-cons c t)
    ∙ (all-append (reverse t) (c ∷ [])
        ∙ (ap (λ b. b && (is_slug_code c && true)) (all-reverse t)
            ∙ and_swap (all is_slug_code t) (is_slug_code c)))

all-dashed : (in_run : Bool) (t : Text) → all is_slug_code (dashed in_run t) ≡ true
all-dashed in_run [] = refl
all-dashed in_run (c ∷ t) = ground (arith, all-dashed true t, all-dashed false t)

all-strip_left : (t : Text) → all is_slug_code t ≡ true → all is_slug_code (strip_left t) ≡ true
all-strip_left [] h = refl
all-strip_left (c ∷ t) h = ground (arith, all-strip_left t)

all-strip : (t : Text) → all is_slug_code t ≡ true → all is_slug_code (strip_dashes t) ≡ true
all-strip t h =
    all-reverse (strip_left (reverse (strip_left t)))
    ∙ all-strip_left (reverse (strip_left t)) (all-reverse (strip_left t) ∙ all-strip_left t h)

all-take : (t : Text) (n : ℕ) → all is_slug_code t ≡ true → all is_slug_code (take t n) ≡ true
all-take [] n h = refl
all-take (c ∷ t) zero h = refl
all-take (c ∷ t) (suc n) h = ground (arith, all-take t n)

-- The slug of any name, whatever its letters, is at most twenty lower case letters, digits and dashes,
-- and neither starts nor ends with a dash.
pub slugify_company_name_shape :
    (host : Host) (name : Text)
    → let slug = slugify_company_name host name in
      (length slug ≤ 20)
      × (all is_slug_code slug ≡ true)
      × (starts_with_dash slug ≡ false)
      × (ends_with_dash slug ≡ false)
unfolding slugify_company_name
slugify_company_name_shape host name =
    let whole = strip_dashes (dashed false (lower (host.ascii name))) in
    (
      omega (arith, length-strip (take whole 20), length-take whole 20),
      all-strip (take whole 20) (
          all-take whole 20 (
            all-strip (dashed false (lower (host.ascii name)))
              (all-dashed false (lower (host.ascii name))))),
      strip-starts (take whole 20),
      strip-ends (take whole 20),
    )
