-- ===== src/I18n/English/Dashboard.antt =====
-- English texts of frontend/src/i18n/translations.ts.
use simply_se.I18n.Dict.{Dict, text, dict, [], ◌∷◌}

unfoldable pub dashboard_template_overview : Dict
dashboard_template_overview =
    text "name" "Overview"
    ∷ text "desc"
        "The four families at a glance: fleet, denials, alerts and deployments, with the trend and the lists to act on."
    ∷ []

unfoldable pub dashboard_template_security : Dict
dashboard_template_security =
    text "name" "Security"
    ∷ text "desc"
        "Denials in depth (by class and source domain), with alerts, deployments and fleet health alongside."
    ∷ []

unfoldable pub dashboard_template_compliance : Dict
dashboard_template_compliance =
    text "name" "Compliance"
    ∷ text "desc"
        "Compliance in depth (score by mode, failing checks), with denials, alerts and deployments alongside."
    ∷ []

unfoldable pub dashboard_template_deployments : Dict
dashboard_template_deployments =
    text "name" "Deployments"
    ∷ text "desc"
        "Rollouts in depth (outcome by status, latest ones), with denials, alerts and fleet health alongside."
    ∷ []

unfoldable pub dashboard_template_fleet : Dict
dashboard_template_fleet =
    text "name" "Fleet"
    ∷ text "desc"
        "Each machine across every family: availability, denials, alerts and deployments per agent."
    ∷ []

unfoldable pub dashboard_template : Dict
unfolding dashboard_template_overview dashboard_template_security dashboard_template_compliance
    dashboard_template_deployments dashboard_template_fleet
dashboard_template =
    text "title" "Dashboard templates"
    ∷ text "intro"
        "Each template fills one screen with no wasted space, shows denials, deployments, alerts and the fleet, and replaces the current layout. You can adjust it afterwards."
    ∷ text "apply" "Use this template"
    ∷ dict "overview" dashboard_template_overview
    ∷ dict "security" dashboard_template_security
    ∷ dict "compliance" dashboard_template_compliance
    ∷ dict "deployments" dashboard_template_deployments
    ∷ dict "fleet" dashboard_template_fleet
    ∷ []

unfoldable pub dashboard_widgets : Dict
dashboard_widgets =
    text "chart" "Chart (configurable tile)"
    ∷ text "statAgents" "Enrolled agents"
    ∷ text "statEnforcing" "Enforcing status"
    ∷ text "statDenials" "Denials count"
    ∷ text "statCommands" "Recent commands count"
    ∷ text "statAlerts" "Open alerts count"
    ∷ text "statCompliance" "Compliance score"
    ∷ text "topSignatures" "Most frequent signatures"
    ∷ text "recentDeployments" "Recent deployments"
    ∷ text "openAlerts" "Open alerts list"
    ∷ text "denialTrend" "Denial trend (curve)"
    ∷ text "agentsVignettes" "Agent vignettes"
    ∷ text "complianceChecks" "Compliance checks (diagram)"
    ∷ text "agentsByMode" "Agents by mode (diagram)"
    ∷ text "pendingSuggestions" "Pending suggestions"
    ∷ text "activeCollections" "Domain collections"
    ∷ text "attentionAgents" "Agents needing attention"
    ∷ []

unfoldable pub dashboard_attention_reason : Dict
dashboard_attention_reason =
    text "offline" "Offline"
    ∷ text "disabled" "Disabled"
    ∷ text "permissive" "Permissive"
    ∷ text "policyMismatch" "Policy mismatch"
    ∷ text "outdated" "Outdated version"
    ∷ []

unfoldable pub dashboard : Dict
unfolding dashboard_template dashboard_widgets dashboard_attention_reason
dashboard =
    text "masterUnreachable" "Could not reach the master: {error}"
    ∷ text "statEnrolledAgents" "Enrolled agents"
    ∷ text "statEnrolledAgentsMeta" "{online} online · {offline} offline"
    ∷ text "statEnforcing" "Enforcing"
    ∷ text "statEnforcingMeta" "{permissive} permissive · {disabled} disabled"
    ∷ text "statDenials" "Denials (observed window)"
    ∷ text "statDenialsMeta" "{count} distinct signatures"
    ∷ text "statRecentCommands" "Recent commands"
    ∷ text "statRecentCommandsMeta" "see Deployments"
    ∷ text "statOpenAlerts" "Open alerts"
    ∷ text "statOpenAlertsMeta" "new or abnormal signatures"
    ∷ text "statCompliance" "Compliance"
    ∷ text "statComplianceMeta" "basic checks"
    ∷ text "topSignatures" "Most frequent signatures"
    ∷ text "colOccurrences" "Occur."
    ∷ text "colAgents" "Agents"
    ∷ text "noDenialsYet" "No denials observed yet."
    ∷ text "recentDeployments" "Recent deployments"
    ∷ text "history" "History"
    ∷ text "noDeploymentsYet" "No deployments yet."
    ∷ text "openAlerts" "Open alerts"
    ∷ text "alertCenter" "Alert center"
    ∷ text "noOpenAlerts" "No open alerts."
    ∷ text "configureChart" "Configure the chart"
    ∷ text "customize" "Customize"
    ∷ text "doneCustomizing" "Done"
    ∷ text "addWidget" "Add a widget"
    ∷ text "randomize" "Random"
    ∷ text "randomizeHint" "Replace the dashboard with a random one that fills one screen"
    ∷ text "templatesButton" "Templates"
    ∷ text "templatesHint" "Pick a ready-made dashboard"
    ∷ text "undoLayout" "Undo"
    ∷ text "undoLayoutHint" "Go back to the previous layout"
    ∷ dict "template" dashboard_template
    ∷ text "removeWidget" "Remove this widget"
    ∷ text "widgetLimitLabel" "Rows shown"
    ∷ text "savingLayout" "Saving…"
    ∷ text "layoutSaved" "Layout saved"
    ∷ dict "widgets" dashboard_widgets
    ∷ text "denialTrendTitle" "Denial trend (14 days)"
    ∷ text "noTrendData" "No trend data yet."
    ∷ text "trendTooltip" "{count} denials on {date}"
    ∷ text "agentsVignettesTitle" "Agents"
    ∷ text "complianceChecksTitle" "Compliance checks"
    ∷ text "agentsByModeTitle" "Agents by mode"
    ∷ text "pendingSuggestionsTitle" "Pending suggestions ({count})"
    ∷ text "noPendingSuggestions" "Nothing awaiting review."
    ∷ text "activeCollectionsTitle" "Domain collections ({count})"
    ∷ text "noActiveCollections" "No collection is running."
    ∷ text "collectionEndsAt" "until {time}"
    ∷ text "collectionLines" "{count} lines"
    ∷ text "attentionAgentsTitle" "Needs attention ({count})"
    ∷ text "noAttentionAgents" "Nothing needs attention right now."
    ∷ dict "attentionReason" dashboard_attention_reason
    ∷ text "checkEnforcing" "Enforcing mode"
    ∷ text "checkConnected" "Agent reachable"
    ∷ text "checkPolicy" "targeted policy"
    ∷ text "checkNoOpenAlerts" "No open alerts"
    ∷ []
