-- ===== src/Dashboard/Saving/Writing.antt =====
-- When autosave writes an edit, after a layout was loaded and after loading failed.
use simply_se.Base.{
  ◌≡◌, refl, ◌∙◌, ap, Bool, true, false, Option, none, some, List, [], ◌∷◌, String, str_eq, eq_iff,
  str_eq_refl, if◌then◌else◌, get_elem?, arith, sym, Bool-cases, inl, inr,
}
use simply_se.Dashboard.Widgets.{WidgetInstance, default_widgets}
use simply_se.Dashboard.Saving.{
  Saving, Event, initial, matches, autosave, fire, reply, step, run, load_failed, edited,
  timer_fired, save_done, with_widgets,
}
use simply_se.Dashboard.Saving.Safety.{reply-none}

module _ (stringify : List WidgetInstance → String) where
  -- Whether the effect sets the timer, for a layout that is written as `x`.
  abbrev is_due : Bool → Option String → String → Bool
  is_due l o x = if l then if matches o x then false else true else false

  due_same : (l : Bool) (o : Option String) (x : String) → o ≡ some x → is_due l o x ≡ false
  due_same true o x e = rw (e, str_eq_refl x)
  due_same false o x e = refl

  due_differs :
      (l : Bool) (o : Option String) (x : String) → l ≡ true → ¬ (o ≡ some x) → is_due l o x ≡ true
  due_differs true none x e h = refl
  due_differs true (some t) x e h = elim (Bool-cases (str_eq x t)) [
    | inl same ↦ absurd (h (ap some (sym ((eq_iff x t).0 same))))
    | inr other ↦ rw other
  ]
  due_differs false o x e h = cc

  synced_unless_due :
      (l : Bool) (o : Option String) (x : String) → l ≡ true → is_due l o x ≡ false → o ≡ some x
  synced_unless_due l none x e h = ground arith
  synced_unless_due l (some t) x e h = ap some (ground (arith, eq_iff x t))

  -- The timer and the reply of the master, where the timer is set if the layout is due.
  abbrev exchange : Bool → List WidgetInstance → Saving → Saving
  exchange due w t =
      let fired = fire stringify (if due then some w else none) t in
      reply stringify (get_elem? fired.in_flight 0) true 0 fired

  exchange_due :
      (due : Bool) (w : List WidgetInstance) (t : Saving)
      → due ≡ true
      → (exchange due w t).sent ≡ w ∷ t.sent
  unfolding fire reply
  exchange_due true w t e = refl
  exchange_due false w t e = cc

  exchange_quiet :
      (due : Bool) (w : List WidgetInstance) (t : Saving)
      → due ≡ false
      → t.in_flight ≡ []
      → exchange due w t ≡ t
  unfolding fire
  exchange_quiet true w t e o = cc
  exchange_quiet false w t e o =
      reply-none stringify (λ s. s ≡ t) (get_elem? t.in_flight 0) true 0 t
        (ap (λ l. get_elem? l 0) o) refl

  exchange_synced :
      (due : Bool) (w : List WidgetInstance) (t : Saving)
      → (due ≡ false → t.synced_layout ≡ some (stringify w))
      → t.in_flight ≡ []
      → (exchange due w t).synced_layout ≡ some (stringify w)
  unfolding fire reply
  exchange_synced true w t h o = refl
  exchange_synced false w t h o =
      ap (λ s. s.synced_layout) (exchange_quiet false w t refl o) ∙ h refl

  -- An edit reaches the master. When the layout is loaded and no request is open, then after an edit,
  -- the timer and the reply of the master, the edited layout is the synced one; it has been sent once
  -- if it differs from the layout that was synced before, and nothing has been sent if it does not.
  pub run_edit :
      (widgets : List WidgetInstance) (s : Saving)
      → s.layout_loaded ≡ true
      → s.in_flight ≡ []
      → ((run stringify (edited widgets ∷ timer_fired ∷ save_done 0 ∷ []) s).synced_layout
          ≡ some (stringify widgets))
        × (¬ (s.synced_layout ≡ some (stringify widgets))
            → (run stringify (edited widgets ∷ timer_fired ∷ save_done 0 ∷ []) s).sent
              ≡ widgets ∷ s.sent)
        × (s.synced_layout ≡ some (stringify widgets)
            → (run stringify (edited widgets ∷ timer_fired ∷ save_done 0 ∷ []) s).sent ≡ s.sent)
  unfolding run step autosave
  run_edit widgets s l o =
      let due = is_due s.layout_loaded s.synced_layout (stringify widgets) in
      let t = autosave stringify (with_widgets stringify widgets s) in
      (
        exchange_synced due widgets t
            (synced_unless_due s.layout_loaded s.synced_layout (stringify widgets) l) o,
        λ h.
            exchange_due due widgets t
              (due_differs s.layout_loaded s.synced_layout (stringify widgets) l h),
        λ h.
            ap (λ r. r.sent)
              (exchange_quiet due widgets t
                (due_same s.layout_loaded s.synced_layout (stringify widgets) h) o),
      )

  -- The default layout is shown and stands for the layout of the master.
  record IsDefault (s : Saving) : Type 0 where
    is_loaded : s.layout_loaded ≡ true
    default_shown : s.widgets ≡ default_widgets
    default_synced : s.synced_layout ≡ some (stringify default_widgets)
    timer_clear : s.save_timer ≡ none
    nothing_open : s.in_flight ≡ []
    nothing_sent : s.sent ≡ []

  -- The page after a failed load and these further events.
  abbrev pub after_failure : List Event → Saving
  after_failure events = run stringify (load_failed ∷ events) initial
