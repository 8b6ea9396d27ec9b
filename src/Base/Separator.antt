-- ===== src/Base/Separator.antt =====
-- Texts joined by a separator that begins with a bar: where the text before it holds no bar, the
-- joined text determines both parts.
use Prim.Native.Char.{code}
use Prim.Native.String.{String, [], ◌∷◌, ◌++◌}
use mathlib.Core.Path.{◌≡◌, refl, ap, ap₂, ◌∙◌, sym}
use mathlib.Core.Bool.{Bool, false, ◌||◌}
use native.Mathlib.Omega.{arith}
use text.Mathlib.TextLemmas.{
  head-eq_of_cons-eq, tail-eq_of_cons-eq, nil-append, cons-append, append_cancel_left,
}
use simply_se.Base.Tests.{◌==◌}

abbrev pub has_bar : String → Bool
has_bar [] = false
has_bar (c ∷ s) = code c == b'|' || has_bar s

abbrev pub joined : String → String → String
joined a b = a ++ ("|~|" ++ b)

pub joined_inj :
    (a c b d : String)
    → has_bar a ≡ false
    → has_bar c ≡ false
    → joined a b ≡ joined c d
    → (a ≡ c) × (b ≡ d)
joined_inj [] [] b d h k e = (
  refl,
  append_cancel_left "|~|" b d (sym (nil-append ("|~|" ++ b)) ∙ e ∙ nil-append ("|~|" ++ d)),
)
joined_inj [] (y ∷ c) b d h k e =
    let opened : "|" ∷ ("~|" ++ b) ≡ y ∷ (c ++ ("|~|" ++ d)) =
      sym (cons-append "|" "~|" b)
      ∙ sym (nil-append ("|~|" ++ b))
      ∙ e
      ∙ cons-append y c ("|~|" ++ d) in
    let bar : code "|" ≡ code y = ap code (head-eq_of_cons-eq opened) in ground arith
joined_inj (x ∷ a) [] b d h k e =
    let opened : x ∷ (a ++ ("|~|" ++ b)) ≡ "|" ∷ ("~|" ++ d) =
      sym (cons-append x a ("|~|" ++ b)) ∙ e ∙ nil-append ("|~|" ++ d) ∙ cons-append "|" "~|" d in
    let bar : code x ≡ code "|" = ap code (head-eq_of_cons-eq opened) in ground arith
joined_inj (x ∷ a) (y ∷ c) b d h k e =
    let opened : x ∷ (a ++ ("|~|" ++ b)) ≡ y ∷ (c ++ ("|~|" ++ d)) =
      sym (cons-append x a ("|~|" ++ b)) ∙ e ∙ cons-append y c ("|~|" ++ d) in
    let (same, rest) =
      joined_inj a c b d (ground arith) (ground arith) (tail-eq_of_cons-eq opened) in
    (ap₂ ◌∷◌ (head-eq_of_cons-eq opened) same, rest)
