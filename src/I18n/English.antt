-- ===== src/I18n/English.antt =====
-- The English dictionary of frontend/src/i18n/translations.ts.
pub mod Pages
pub mod Charts
pub mod Shell
pub mod Dashboard
use simply_se.I18n.Dict.{Dict, text, dict, [], ◌∷◌}
use simply_se.I18n.English.Pages.{
  agents, agent_detail, deploy_dialog, denials, matrix, revert, deployments, compliance, alerts,
  suggestions, collect, scan, settings,
}
use simply_se.I18n.English.Charts.{charts}
use simply_se.I18n.English.Shell.{nav, nav_desc, topbar, theme, common}
use simply_se.I18n.English.Dashboard.{dashboard}

unfoldable pub en_dict : Dict
unfolding nav nav_desc topbar theme charts common dashboard agents agent_detail deploy_dialog
    denials matrix revert deployments compliance alerts suggestions collect scan settings
en_dict =
    dict "nav" nav
    ∷ dict "navDesc" nav_desc
    ∷ dict "topbar" topbar
    ∷ dict "theme" theme
    ∷ dict "charts" charts
    ∷ dict "common" common
    ∷ dict "dashboard" dashboard
    ∷ dict "agents" agents
    ∷ dict "agentDetail" agent_detail
    ∷ dict "deployDialog" deploy_dialog
    ∷ dict "denials" denials
    ∷ dict "matrix" matrix
    ∷ dict "revert" revert
    ∷ dict "deployments" deployments
    ∷ dict "compliance" compliance
    ∷ dict "alerts" alerts
    ∷ dict "suggestions" suggestions
    ∷ dict "collect" collect
    ∷ dict "scan" scan
    ∷ dict "settings" settings
    ∷ []
