-- ===== src/Navigation.antt =====
-- The navigation of frontend/src/lib/nav.ts. An absent `end` is false, and the only badge is a text.
pub mod Finding
use simply_se.Base.{
  Bool, true, false, ◌||◌, Option, none, some, List, [], ◌∷◌, String, str_eq, if◌then◌else◌, find,
}
use text.Mathlib.Text.{starts_with}
use Prim.Native.String.{◌++◌}

pub record NavPage : Type 0 where
  pub to : String
  pub icon : String
  pub key : String
  pub desc_key : String
  pub end : Bool
  pub badge : Option String

pub record NavCategory : Type 0 where
  pub id : String
  pub label_key : String
  pub pages : List NavPage

abbrev page : String → String → String → String → NavPage
page to icon key desc = record {
  to = to;
  icon = icon;
  key = key;
  desc_key = desc;
  end = false;
  badge = none;
}

unfoldable pub nav : List NavCategory
nav =
    record {
      id = "overview";
      label_key = "nav.cat.overview";
      pages =
          record {
            to = "/";
            icon = "ph-gauge";
            key = "nav.dashboard";
            desc_key = "navDesc.dashboard";
            end = true;
            badge = none;
          }
          ∷ page "/charts" "ph-chart-line-up" "nav.charts" "navDesc.charts"
          ∷ [];
    }
    ∷ record {
      id = "fleet";
      label_key = "nav.cat.fleet";
      pages =
          page "/agents" "ph-desktop-tower" "nav.agents" "navDesc.agents"
          ∷ page "/compliance" "ph-shield-check" "nav.compliance" "navDesc.compliance"
          ∷ [];
    }
    ∷ record {
      id = "detection";
      label_key = "nav.cat.detection";
      pages =
          page "/denials" "ph-warning-octagon" "nav.denials" "navDesc.denials"
          ∷ page "/matrix" "ph-grid-nine" "nav.matrix" "navDesc.matrix"
          ∷ record {
            to = "/alerts";
            icon = "ph-bell";
            key = "nav.alerts";
            desc_key = "navDesc.alerts";
            end = false;
            badge = some "openAlerts";
          }
          ∷ page "/quarantine" "ph-prohibit" "nav.quarantine" "navDesc.quarantine"
          ∷ [];
    }
    ∷ record {
      id = "remediation";
      label_key = "nav.cat.remediation";
      pages =
          page "/suggestions" "ph-magic-wand" "nav.suggestions" "navDesc.suggestions"
          ∷ page "/collections" "ph-funnel" "nav.collections" "navDesc.collections"
          ∷ page "/deployments" "ph-upload-simple" "nav.deployments" "navDesc.deployments"
          ∷ [];
    }
    ∷ record {
      id = "resources";
      label_key = "nav.cat.resources";
      pages =
          page "/wiki" "ph-book-open" "nav.wiki" "navDesc.wiki"
          ∷ page "/settings" "ph-gear" "nav.settings" "navDesc.settings"
          ∷ [];
    }
    ∷ []

unfoldable pub is_page_active : NavPage → String → Bool
is_page_active page pathname =
    if page.end
    then str_eq pathname page.to
    else str_eq pathname page.to || starts_with pathname (page.to ++ "/")

pub find_in : String → List NavCategory → Option (NavCategory × NavPage)
unfolding is_page_active
find_in pathname [] = none
find_in pathname (c ∷ categories) =
    let rest = find_in pathname categories in
    elim (find (λ p. is_page_active p pathname) c.pages) [ none ↦ rest | some p ↦ some (c, p) ]

unfoldable pub find_current : String → Option (NavCategory × NavPage)
unfolding find_in nav
find_current pathname = find_in pathname nav
