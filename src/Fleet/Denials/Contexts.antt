-- ===== src/Fleet/Denials/Contexts.antt =====
-- What the sentence about a denial depends on: the contexts of frontend/src/lib/explainDenial.ts.
use Prim.Native.Char.{Char, code}
use Prim.Native.String.{◌++◌}
use text.Mathlib.TextLemmas.{nil-append, cons-append}
use simply_se.Base.{
  String, Bool, true, false, List, [], ◌∷◌, get_elem?, ltb, length, ◌==◌, if◌then◌else◌, ◌≡◌, refl,
  sym, ap, ap₂, ◌∙◌, arith,
}
use simply_se.Base.Objects.{or_else}
use simply_se.I18n.Dict.{Locale}
use simply_se.I18n.Text.{contains, split, onto_first}
use simply_se.Fleet.Denials.{
  type_from_context, friendly_actor, friendly_type, humanize_type, explain_denial, sentence,
  capitalize, friendly_class, join_perms,
}

-- A context is a user, a role, a type and a level; the first three have no colon.
abbrev pub context : String → String → String → String → String
context user role type level = user ++ (":" ++ (role ++ (":" ++ (type ++ (":" ++ level)))))

colon_first : (s : String) → split b':' (":" ++ s) ≡ "" ∷ split b':' s
colon_first s =
    ap (λ x. split b':' x) (cons-append _ "" s ∙ ap (λ x. String.◌∷◌ ":" x) (nil-append s))

other_first :
    (c : Char) (rest : List String) (b : Bool)
    → b ≡ false
    → (if b then "" ∷ rest else onto_first c rest) ≡ onto_first c rest
other_first c rest true h = cc
other_first c rest false h = refl

-- The first part is split off, where it has no colon.
split-append :
    (a s : String) → contains b':' a ≡ false → split b':' (a ++ (":" ++ s)) ≡ a ∷ split b':' s
split-append String.[] s h = ap (λ x. split b':' x) (nil-append (":" ++ s)) ∙ colon_first s
split-append (String.◌∷◌ c a) s h =
    ap (λ x. split b':' x) (cons-append c a (":" ++ s))
    ∙ other_first c (split b':' (a ++ (":" ++ s))) (code c == b':') (ground arith)
    ∙ ap (onto_first c) (split-append a s (ground arith))

split-context :
    (user role type level : String)
    → contains b':' user ≡ false
    → contains b':' role ≡ false
    → contains b':' type ≡ false
    → split b':' (context user role type level) ≡ user ∷ role ∷ type ∷ split b':' level
split-context user role type level hu hr ht =
    split-append user (role ++ (":" ++ (type ++ (":" ++ level)))) hu
    ∙ ap (λ xs. user ∷ xs) (split-append role (type ++ (":" ++ level)) hr)
    ∙ ap (λ xs. user ∷ role ∷ xs) (split-append type level ht)

third : List String → String → String
third parts ctx = if ltb 2 (length parts) then or_else (get_elem? parts 2) "" else ctx

third_of : (a b c ctx : String) (rest : List String) → third (a ∷ b ∷ c ∷ rest) ctx ≡ c
unfolding third
third_of a b c ctx rest = ground arith

type_from_context-context :
    (user role type level : String)
    → contains b':' user ≡ false
    → contains b':' role ≡ false
    → contains b':' type ≡ false
    → type_from_context (context user role type level) ≡ type
unfolding type_from_context third
type_from_context-context user role type level hu hr ht =
    ap (λ parts. third parts (context user role type level))
      (split-context user role type level hu hr ht)
    ∙ third_of user role type (context user role type level) (split b':' level)

split_bare : (s : String) → contains b':' s ≡ false → split b':' s ≡ s ∷ []
split_bare String.[] h = refl
split_bare (String.◌∷◌ c s) h =
    other_first c (split b':' s) (code c == b':') (ground arith)
    ∙ ap (onto_first c) (split_bare s (ground arith))

type_from_context_bare :
    (type : String) → contains b':' type ≡ false → type_from_context type ≡ type
unfolding type_from_context third
type_from_context_bare type h = ap (λ parts. third parts type) (split_bare type h)

-- In contexts whose user, role and type have no colon, the sentence about a denial names the actor
-- and the target by their types alone, whatever the users, the roles and the levels.
pub explain_denial-context :
    (upper : Char → String) (user role type level user2 role2 type2 level2 tclass : String)
    (perms : List String) (locale : Locale)
    → contains b':' user ≡ false
    → contains b':' role ≡ false
    → contains b':' type ≡ false
    → contains b':' user2 ≡ false
    → contains b':' role2 ≡ false
    → contains b':' type2 ≡ false
    → explain_denial upper
        (record {
          scontext = context user role type level;
          tcontext = context user2 role2 type2 level2;
          tclass = tclass;
          perms = perms;
        })
        locale
      ≡ explain_denial upper
          (record { scontext = type; tcontext = type2; tclass = tclass; perms = perms })
          locale
unfolding explain_denial friendly_actor
explain_denial-context upper user role type level user2 role2 type2 level2 tclass perms locale hu hr
      ht hu2 hr2 ht2 =
    ap₂
      (λ t t2.
        sentence locale (capitalize upper (friendly_type t locale)) (friendly_class tclass locale)
          (humanize_type t2) (join_perms perms))
      (type_from_context-context user role type level hu hr ht
        ∙ sym (type_from_context_bare type ht))
      (type_from_context-context user2 role2 type2 level2 hu2 hr2 ht2
        ∙ sym (type_from_context_bare type2 ht2))
