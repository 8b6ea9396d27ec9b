-- ===== src/I18n/English/Shell.antt =====
-- English texts of frontend/src/i18n/translations.ts.
use simply_se.I18n.Dict.{Dict, text, dict, [], ◌∷◌}

unfoldable pub nav_cat : Dict
nav_cat =
    text "overview" "Overview"
    ∷ text "fleet" "Fleet"
    ∷ text "detection" "Detection"
    ∷ text "remediation" "Remediation"
    ∷ text "resources" "Resources"
    ∷ []

unfoldable pub nav : Dict
unfolding nav_cat
nav =
    text "dashboard" "Dashboard"
    ∷ text "agents" "Agents"
    ∷ text "denials" "Denials"
    ∷ text "matrix" "Matrix"
    ∷ text "deployments" "Deployments"
    ∷ text "compliance" "Compliance"
    ∷ text "alerts" "Alerts"
    ∷ text "suggestions" "Suggestions"
    ∷ text "collections" "Collections"
    ∷ text "wiki" "Wiki"
    ∷ text "settings" "Settings"
    ∷ text "quarantine" "Quarantine"
    ∷ text "charts" "Charts"
    ∷ dict "cat" nav_cat
    ∷ []

unfoldable pub nav_desc : Dict
nav_desc =
    text "charts" "Explore the history as charts: pick data, a period and one of 47 chart types."
    ∷ text "dashboard" "Fleet health at a glance, arranged the way you want."
    ∷ text "agents" "Every enrolled machine, its SELinux mode and last check-in."
    ∷ text "compliance" "How well each machine passes the baseline checks."
    ∷ text "denials" "Access attempts SELinux blocked, with the context of each."
    ∷ text "matrix" "Denials grouped by source and target across the fleet."
    ∷ text "alerts" "New or abnormal denial patterns waiting for review."
    ∷ text "quarantine" "Denials set aside so they stop showing up elsewhere."
    ∷ text "suggestions" "Policy fixes proposed for your review before anything is installed."
    ∷ text "collections" "Temporarily record every denial of one domain on a machine."
    ∷ text "deployments" "Rules sent to machines and whether they were applied."
    ∷ text "wiki" "How SELinux and SimplySE work."
    ∷ text "settings" "Connections to your SIEM and monitoring tools."
    ∷ []

unfoldable pub topbar : Dict
topbar =
    text "mainNav" "Main navigation"
    ∷ text "fleetOnline" "{online}/{total} online"
    ∷ text "language" "Language"
    ∷ text "openMenu" "Open menu"
    ∷ text "closeMenu" "Close menu"
    ∷ []

unfoldable pub theme : Dict
theme = text "toLight" "Switch to light theme" ∷ text "toDark" "Switch to dark theme" ∷ []

unfoldable pub common_columns : Dict
common_columns =
    text "date" "Date"
    ∷ text "agent" "Agent"
    ∷ text "type" "Type"
    ∷ text "parameters" "Parameters"
    ∷ text "status" "Status"
    ∷ text "message" "Message"
    ∷ text "host" "Host"
    ∷ text "mode" "Mode"
    ∷ text "osKernel" "OS / kernel"
    ∷ text "policy" "Policy"
    ∷ text "lastSeen" "Last seen"
    ∷ text "path" "Path"
    ∷ text "command" "Command"
    ∷ text "sourceTarget" "Source → target"
    ∷ text "classPerm" "Class / perm"
    ∷ text "pid" "PID"
    ∷ text "timestamp" "Timestamp"
    ∷ text "name" "Name"
    ∷ text "value" "Value"
    ∷ text "version" "Version"
    ∷ []

unfoldable pub common : Dict
unfolding common_columns
common =
    text "loading" "Loading…"
    ∷ text "save" "Save"
    ∷ text "previous" "Previous"
    ∷ text "next" "Next"
    ∷ text "never" "never"
    ∷ text "allAgents" "All agents"
    ∷ text "open" "Open"
    ∷ text "viewAll" "View all"
    ∷ text "deployRule" "Deploy a rule"
    ∷ text "resultsRange" "{from}–{to} of {total}"
    ∷ text "noResults" "0 results"
    ∷ text "filter" "Filter…"
    ∷ text "cancel" "Cancel"
    ∷ text "deploy" "Deploy"
    ∷ text "deploying" "Deploying…"
    ∷ dict "columns" common_columns
    ∷ []
