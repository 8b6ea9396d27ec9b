-- ===== src/Dashboard/Saving/Safety.antt =====
-- What autosave writes, and when.
use simply_se.Base.{
  ℕ, ◌≡◌, refl, ◌∙◌, ap, Bool, true, false, not, Option, none, some, List, [], ◌∷◌, String, str_eq,
  str_eq_refl, if◌then◌else◌, get_elem?, all, arith,
}
use simply_se.Dashboard.Widgets.{WidgetInstance, default_widgets}
use simply_se.Dashboard.Saving.{
  Saving, Event, initial, matches, autosave, loaded_widgets, fire, reply, step, run, loaded,
  load_failed, edited, timer_fired, save_done, save_failed, with_loaded,
}

abbrev pub is_edit : Event → Bool
is_edit (edited widgets) = true
is_edit (loaded widgets) = false
is_edit load_failed = false
is_edit timer_fired = false
is_edit (save_done i) = false
is_edit (save_failed i) = false

module _ (stringify : List WidgetInstance → String) where
  -- Nothing to save: what is shown is the default layout, or the layout of the last exchange.
  record IsQuiet (s : Saving) : Type 0 where
    no_timer : s.save_timer ≡ none
    none_open : s.in_flight ≡ []
    none_sent : s.sent ≡ []
    shown : s.layout_loaded ≡ false → s.widgets ≡ default_widgets
    synced : s.layout_loaded ≡ true → matches s.synced_layout (stringify s.widgets) ≡ true

  -- The timer is set exactly if the layout is loaded and differs from the synced one.
  timer_off :
      (l m : Bool) (w : List WidgetInstance)
      → (l ≡ true → m ≡ true)
      → (if (if l then if m then false else true else false) then some w else none) ≡ none
  timer_off true true w h = refl
  timer_off true false w h = let no : false ≡ true = h refl in cc
  timer_off false m w h = refl

  autosave-IsQuiet :
      (s : Saving)
      → s.in_flight ≡ []
      → s.sent ≡ []
      → s.layout_loaded ≡ true
      → matches s.synced_layout (stringify s.widgets) ≡ true
      → IsQuiet (autosave stringify s)
  unfolding autosave
  autosave-IsQuiet s a b l m = record {
    no_timer =
        timer_off s.layout_loaded (matches s.synced_layout (stringify s.widgets)) s.widgets λ _. m;
    none_open = a;
    none_sent = b;
    shown = λ e. cc;
    synced = λ e. m;
  }

  pub either :
      (P : Saving → Type 0) (b : Bool) (s t : Saving)
      → P s
      → (b ≡ false → P t)
      → P (if b then s else t)
  either P true s t p q = p
  either P false s t p q = q refl

  pub fire-none :
      (P : Saving → Type 0) (o : Option (List WidgetInstance)) (s : Saving)
      → o ≡ none
      → P s
      → P (fire stringify o s)
  unfolding fire
  fire-none P none s e q = q
  fire-none P (some w) s e q = cc

  pub reply-none :
      (P : Saving → Type 0) (o : Option (List WidgetInstance)) (ok : Bool) (i : ℕ) (s : Saving)
      → o ≡ none
      → P s
      → P (reply stringify o ok i s)
  unfolding reply
  reply-none P none ok i s e q = q
  reply-none P (some w) ok i s e q = cc

  step-IsQuiet :
      (e : Event) (s : Saving) → is_edit e ≡ false → IsQuiet s → IsQuiet (step stringify e s)
  unfolding step
  step-IsQuiet (loaded widgets) s h q =
      let next = with_loaded stringify (loaded_widgets widgets) (loaded_widgets widgets) s in
      either IsQuiet s.layout_loaded s (autosave stringify next) q λ l.
        autosave-IsQuiet next q.none_open q.none_sent refl
          (str_eq_refl (stringify (loaded_widgets widgets)))
  step-IsQuiet load_failed s h q =
      let next = with_loaded stringify s.widgets default_widgets s in
      either IsQuiet s.layout_loaded s (autosave stringify next) q λ l.
        autosave-IsQuiet next q.none_open q.none_sent refl (
          ap (λ w. str_eq (stringify w) (stringify default_widgets)) (q.shown l)
          ∙ str_eq_refl (stringify default_widgets))
  step-IsQuiet (edited widgets) s h q = cc
  step-IsQuiet timer_fired s h q = fire-none IsQuiet s.save_timer s q.no_timer q
  step-IsQuiet (save_done i) s h q =
      reply-none IsQuiet (get_elem? s.in_flight i) true i s (ap (λ l. get_elem? l i) q.none_open) q
  step-IsQuiet (save_failed i) s h q =
      reply-none IsQuiet (get_elem? s.in_flight i) false i s (ap (λ l. get_elem? l i) q.none_open) q

  run-IsQuiet :
      (events : List Event) (s : Saving)
      → all (λ e. not (is_edit e)) events ≡ true
      → IsQuiet s
      → IsQuiet (run stringify events s)
  unfolding run
  run-IsQuiet [] s h q = q
  run-IsQuiet (e ∷ events) s h q =
      run-IsQuiet events (step stringify e s) (ground arith) (step-IsQuiet e s (ground arith) q)

  -- Opening the dashboard never writes: as long as nobody edits the layout, whatever the master
  -- replies and whenever the timer fires, no layout is sent.
  pub run_unedited :
      (events : List Event)
      → all (λ e. not (is_edit e)) events ≡ true
      → (run stringify events initial).sent ≡ []
  unfolding initial
  run_unedited events h =
      (run-IsQuiet events initial h (record {
        no_timer = refl;
        none_open = refl;
        none_sent = refl;
        shown = λ e. refl;
        synced = λ e. cc;
      })).none_sent
