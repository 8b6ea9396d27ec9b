-- ===== src/I18n/Filling.antt =====
-- What the replacement of a placeholder in `t` of frontend/src/i18n/index.tsx makes of a text.
use Prim.Native.Char.{Char, code}
use Prim.Native.String.append
use Prim.Native.String.count
use Prim.Native.String.{◌++◌, count}
use text.Mathlib.Text.{starts_with}
use text.Mathlib.TextEquality.{starts_with_iff}
use text.Mathlib.TextPositions.{starts_with-append}
use simply_se.Base.{
  String, ℕ, ◌-◌, ◌≡◌, refl, sym, ◌∙◌, ap, true, false, ◌==◌, Bool-cases, inl, inr, arith,
}
use simply_se.I18n.Text.{contains, replace_from}

abbrev first_code : String → ℕ
first_code String.[] = 0
first_code (String.◌∷◌ c s) = code c

-- A text that begins with another character does not begin with the needle.
starts_otherwise :
    (c d : Char) (n s : String)
    → (code c == code d) ≡ false
    → starts_with (String.◌∷◌ c s) (String.◌∷◌ d n) ≡ false
starts_otherwise c d n s h = elim (Bool-cases (starts_with (String.◌∷◌ c s) (String.◌∷◌ d n))) [
  | inl e ↦
      let (u, p) = (starts_with_iff (String.◌∷◌ c s) (String.◌∷◌ d n)).0 e in
      let same : code d ≡ code c = ap first_code (sym (append.cons d n u) ∙ p) in
      absurd (ground arith)
  | inr e ↦ e
]

module _ (d : Char) (n v : String) where
  replace_none :
      (s : String) → contains (code d) s ≡ false → replace_from (String.◌∷◌ d n) v 0 s ≡ s
  unfolding replace_from
  replace_none String.[] h = refl
  replace_none (String.◌∷◌ c s) h =
      rw (starts_otherwise c d n s (ground arith))
        (ap (λ t. String.◌∷◌ c t) (replace_none s (ground arith)))

  replace_skipped :
      (p s : String)
      → replace_from (String.◌∷◌ d n) v (count p) (p ++ s) ≡ replace_from (String.◌∷◌ d n) v 0 s
  unfolding replace_from
  replace_skipped String.[] s = rw (count.nil, append.nil s) refl
  replace_skipped (String.◌∷◌ c p) s = rw (count.cons c p, append.cons c p s) (replace_skipped p s)

  replace_here :
      (s : String)
      → replace_from (String.◌∷◌ d n) v 0 (String.◌∷◌ d (n ++ s))
        ≡ v ++ replace_from (String.◌∷◌ d n) v 0 s
  unfolding replace_from
  replace_here s =
      let hit : starts_with (String.◌∷◌ d (n ++ s)) (String.◌∷◌ d n) ≡ true =
        ap (λ t. starts_with t (String.◌∷◌ d n)) (sym (append.cons d n s))
        ∙ starts_with-append (String.◌∷◌ d n) s in
      let skip : count (String.◌∷◌ d n) - 1 ≡ count n = omega (arith, count.cons d n) in
      rw (hit, skip) (ap (λ t. v ++ t) (replace_skipped n s))

  replace_once :
      (a s : String)
      → contains (code d) a ≡ false
      → replace_from (String.◌∷◌ d n) v 0 (a ++ String.◌∷◌ d (n ++ s))
        ≡ a ++ (v ++ replace_from (String.◌∷◌ d n) v 0 s)
  unfolding replace_from
  replace_once String.[] s h =
      rw (append.nil (String.◌∷◌ d (n ++ s)), append.nil (v ++ replace_from (String.◌∷◌ d n) v 0 s))
        (replace_here s)
  replace_once (String.◌∷◌ c a) s h =
      rw
        (
          append.cons c a (String.◌∷◌ d (n ++ s)),
          append.cons c a (v ++ replace_from (String.◌∷◌ d n) v 0 s),
          starts_otherwise c d n (a ++ String.◌∷◌ d (n ++ s)) (ground arith),
        )
        (ap (λ t. String.◌∷◌ c t) (replace_once a s (ground arith)))

-- A placeholder between texts without a brace is replaced, and nothing else.
pub replace_from_lem :
    (k v a s : String)
    → contains b'{' a ≡ false
    → contains b'{' s ≡ false
    → replace_from ("{" ++ k) v 0 (a ++ (("{" ++ k) ++ s)) ≡ a ++ (v ++ s)
replace_from_lem k v a s h g =
    let brace : "{" ++ k ≡ String.◌∷◌ "{" k =
      append.cons "{" String.[] k ∙ ap (λ t. String.◌∷◌ "{" t) (append.nil k) in
    rw (brace, append.cons "{" k s)
      (replace_once "{" k v a s h ∙ ap (λ t. a ++ (v ++ t)) (replace_none "{" k v s g))
