-- ===== src/Tests/Denials.antt =====
-- The sentence about a denial.
use Prim.Native.Char.{Char}
use simply_se.Base.{String, [], ◌∷◌, ◌≡◌, refl}
use simply_se.I18n.Dict.{fr}
use simply_se.Fleet.Denials.{explain_denial, humanize_type}
use simply_se.Fleet.Denials.Contexts.{context, explain_denial-context}

-- A text with the one character.
abbrev same : Char → String
same c = String.◌∷◌ c String.[]

humanize_test : humanize_type "my_own_t" ≡ "my own"
unfolding humanize_type
humanize_test = refl

explain_denial-context_example :
    explain_denial same
      (record {
        scontext = context "system_u" "system_r" "sshd_t" "s0";
        tcontext = context "system_u" "object_r" "shadow_t" "s0:c1";
        tclass = "file";
        perms = "read" ∷ "open" ∷ [];
      })
      fr
    ≡ explain_denial same
        (record {
          scontext = "sshd_t";
          tcontext = "shadow_t";
          tclass = "file";
          perms = "read" ∷ "open" ∷ [];
        })
        fr
explain_denial-context_example =
    explain_denial-context same "system_u" "system_r" "sshd_t" "s0" "system_u" "object_r" "shadow_t"
      "s0:c1" "file" ("read" ∷ "open" ∷ []) fr refl refl refl refl refl refl
