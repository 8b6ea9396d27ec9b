-- ===== src/Tests/Saving.antt =====
-- Runs and instances for loading and saving the layout.
use simply_se.Base.{◌≡◌, refl, none, some, List, [], ◌∷◌, String}
use simply_se.Dashboard.Widgets.{WidgetInstance}
use simply_se.Dashboard.Saving.{Saving, initial, step, run, loaded, edited, timer_fired, save_done}
use simply_se.Dashboard.Saving.Safety.{run_unedited}
use simply_se.Dashboard.Saving.Writing.{run_edit}

-- A stand-in for `JSON.stringify`.
abbrev text_of : List WidgetInstance → String
text_of [] = "[]"
text_of (w ∷ widgets) = w.id

run_unedited_example :
    (run text_of (loaded none ∷ timer_fired ∷ save_done 0 ∷ []) initial).sent ≡ []
run_unedited_example = run_unedited text_of (loaded none ∷ timer_fired ∷ save_done 0 ∷ []) refl

abbrev ready : Saving
ready = step text_of (loaded none) initial

run_edit_example :
    ((run text_of (edited [] ∷ timer_fired ∷ save_done 0 ∷ []) ready).synced_layout ≡ some "[]")
    × (¬ (ready.synced_layout ≡ some "[]")
        → (run text_of (edited [] ∷ timer_fired ∷ save_done 0 ∷ []) ready).sent ≡ [] ∷ ready.sent)
    × (ready.synced_layout ≡ some "[]"
        → (run text_of (edited [] ∷ timer_fired ∷ save_done 0 ∷ []) ready).sent ≡ ready.sent)
unfolding step initial
run_edit_example = run_edit text_of [] ready refl refl
