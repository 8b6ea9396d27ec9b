-- ===== src/Tests/Navigation.antt =====
-- Runs and instances for the navigation.
use simply_se.Base.{◌≡◌, refl, none, All, some}
use simply_se.Navigation.{NavPage, NavCategory, nav, is_page_active, find_current}
use simply_se.Navigation.Finding.{IsAt, IsElsewhere, find_current_finds}

unknown_path : find_current "/agentsx" ≡ none
unfolding find_current nav is_page_active
unknown_path = refl

find_current_finds_example :
    ((c : NavCategory) (p : NavPage) → find_current "/agents/7" ≡ some (c, p) → IsAt p "/agents/7")
    × ((find_current "/agents/7" ≡ none → All (λ c. IsElsewhere "/agents/7" c.pages) nav)
        × All (λ c. All (λ p. find_current p.to ≡ some (c, p)) c.pages) nav)
find_current_finds_example = find_current_finds "/agents/7"
