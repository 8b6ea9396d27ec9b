-- ===== src/Base/Objects.antt =====
-- Objects as lists of properties, and `??`.
use mathlib.Core.Option.{Option, none, some}
use mathlib.Core.List.{List, [], ◌∷◌}
use Prim.Native.String.{String}
use text.Mathlib.Text.{◌==◌ as str_eq}
use simply_se.Base.Tests.{if◌then◌else◌}

-- A property of an object by its name; `none` is `undefined`.
unfoldable pub field {ℓ} : {A : Type ℓ} → String → List (String × A) → Option A
field k [] = none
field k ((j, v) ∷ fs) = if str_eq j k then some v else field k fs

abbrev pub or_else {ℓ} : {A : Type ℓ} → Option A → A → A
or_else none d = d
or_else (some a) d = a
