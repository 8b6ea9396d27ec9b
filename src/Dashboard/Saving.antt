-- ===== src/Dashboard/Saving.antt =====
-- Loading and autosaving the layout: the effects of frontend/src/pages/Dashboard.tsx as a state
-- machine. `JSON.stringify` is an argument; the replies of the master and the timer are events.
pub mod Safety
pub mod Writing
use simply_se.Base.{
  ℕ, zero, suc, ◌≡◌, Bool, true, false, Option, none, some, List, [], ◌∷◌, ◌++◌, String, str_eq,
  if◌then◌else◌, get_elem?, length, ◌==◌,
}
use simply_se.Dashboard.Widgets.{WidgetInstance, default_widgets}

pub data SaveState : Type 0 where
  idle saving saved : SaveState

-- `sent` and `in_flight` are the layouts of the requests to save, all of them and those without a
-- reply; a reply is counted by its place among the latter.
pub record Saving : Type 0 where
  pub widgets : List WidgetInstance
  pub layout_loaded : Bool
  pub synced_layout : Option String
  pub save_timer : Option (List WidgetInstance)
  pub save_state : SaveState
  pub in_flight : List (List WidgetInstance)
  pub sent : List (List WidgetInstance)

unfoldable pub initial : Saving
initial = record {
  widgets = default_widgets;
  layout_loaded = false;
  synced_layout = none;
  save_timer = none;
  save_state = idle;
  in_flight = [];
  sent = [];
}

unfoldable pub drop_at {ℓ} : {A : Type ℓ} → ℕ → List A → List A
drop_at i [] = []
drop_at zero (x ∷ xs) = xs
drop_at (suc i) (x ∷ xs) = x ∷ drop_at i xs

unfoldable pub loaded_widgets : Option (List WidgetInstance) → List WidgetInstance
loaded_widgets none = default_widgets
loaded_widgets (some []) = default_widgets
loaded_widgets (some (w ∷ widgets)) = w ∷ widgets

abbrev pub matches : Option String → String → Bool
matches none s = false
matches (some t) s = str_eq s t

pub data Event : Type 0 where
  loaded : Option (List WidgetInstance) → Event
  load_failed : Event
  edited : List WidgetInstance → Event
  timer_fired : Event
  save_done : ℕ → Event
  save_failed : ℕ → Event

module _ (stringify : List WidgetInstance → String) where
  -- The effect on `[widgets, layoutLoaded]`, after the clean-up that clears the timer.
  unfoldable pub autosave : Saving → Saving
  autosave s =
      let due =
        if s.layout_loaded
        then if matches s.synced_layout (stringify s.widgets) then false else true
        else false in
      record {
        widgets = s.widgets;
        layout_loaded = s.layout_loaded;
        synced_layout = s.synced_layout;
        save_timer = if due then some s.widgets else none;
        save_state = if due then saving else s.save_state;
        in_flight = s.in_flight;
        sent = s.sent;
      }

  abbrev pub with_loaded : List WidgetInstance → List WidgetInstance → Saving → Saving
  with_loaded widgets synced s = record {
    widgets = widgets;
    layout_loaded = true;
    synced_layout = some (stringify synced);
    save_timer = s.save_timer;
    save_state = s.save_state;
    in_flight = s.in_flight;
    sent = s.sent;
  }

  -- What an edit, or the page showing other widgets, does.
  abbrev pub with_widgets : List WidgetInstance → Saving → Saving
  with_widgets widgets s = record {
    widgets = widgets;
    layout_loaded = s.layout_loaded;
    synced_layout = s.synced_layout;
    save_timer = s.save_timer;
    save_state = s.save_state;
    in_flight = s.in_flight;
    sent = s.sent;
  }

  unfoldable pub fire : Option (List WidgetInstance) → Saving → Saving
  fire none s = s
  fire (some widgets) s = record {
    widgets = s.widgets;
    layout_loaded = s.layout_loaded;
    synced_layout = s.synced_layout;
    save_timer = none;
    save_state = s.save_state;
    in_flight = widgets ∷ s.in_flight;
    sent = widgets ∷ s.sent;
  }

  unfoldable pub reply : Option (List WidgetInstance) → Bool → ℕ → Saving → Saving
  unfolding drop_at
  reply none ok i s = s
  reply (some widgets) ok i s = record {
    widgets = s.widgets;
    layout_loaded = s.layout_loaded;
    synced_layout = if ok then some (stringify widgets) else s.synced_layout;
    save_timer = s.save_timer;
    save_state = if ok then saved else idle;
    in_flight = drop_at i s.in_flight;
    sent = s.sent;
  }

  -- The layout is asked for once, so only the first reply counts.
  unfoldable pub step : Event → Saving → Saving
  unfolding autosave loaded_widgets fire reply
  step (loaded widgets) s =
      if s.layout_loaded
      then s
      else autosave (with_loaded (loaded_widgets widgets) (loaded_widgets widgets) s)
  step load_failed s =
      if s.layout_loaded then s else autosave (with_loaded s.widgets default_widgets s)
  step (edited widgets) s = autosave (with_widgets widgets s)
  step timer_fired s = fire s.save_timer s
  step (save_done i) s = reply (get_elem? s.in_flight i) true i s
  step (save_failed i) s = reply (get_elem? s.in_flight i) false i s

  unfoldable pub run : List Event → Saving → Saving
  unfolding step
  run [] s = s
  run (e ∷ events) s = run events (step e s)
