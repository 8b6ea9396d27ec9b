-- ===== src/I18n/English/Pages.antt =====
-- English texts of frontend/src/i18n/translations.ts.
use simply_se.I18n.Dict.{Dict, text, dict, [], ◌∷◌}

unfoldable pub agents : Dict
agents =
    text "noSelection" "No selection"
    ∷ text "selectedCount" "{count} selected"
    ∷ text "clear" "Clear"
    ∷ text "setPermissive" "Set to permissive"
    ∷ text "empty" "No agent enrolled yet."
    ∷ []

unfoldable pub agent_detail : Dict
agent_detail =
    text "backToInventory" "Inventory"
    ∷ text "address" "Address"
    ∷ text "confirmSetMode" "Set {hostname} to {mode} mode?"
    ∷ text "confirmToggleBoolean" "Set boolean {name} to {value} on {hostname}?"
    ∷ text "deployRuleOnAgent" "Deploy a rule on this agent"
    ∷ text "rulesApplied" "Rules applied"
    ∷ text "noRulesYet" "No rule deployed on this agent yet."
    ∷ text "booleans" "SELinux booleans"
    ∷ text "collectedAt" "collected {date}"
    ∷ text "toggle" "Toggle"
    ∷ text "noInventoryYet" "No data yet — sent automatically by the agent once connected."
    ∷ text "modules" "Policy modules"
    ∷ text "trackedFiles" "Watched files (drift detection)"
    ∷ text "trackedFilesExplainer"
        "A hash change here (outside a deployment from this master) raises a config_drift alert."
    ∷ text "hash" "Hash (sha256)"
    ∷ text "logsRecentDenials" "Logs / recent denials"
    ∷ text "noDenialsForAgent" "No denials observed for this agent."
    ∷ text "correlatedEvents" "Correlated events (±60s, external sources)"
    ∷ text "noCorrelatedEvents" "No matching event found in configured sources."
    ∷ []

unfoldable pub deploy_dialog : Dict
deploy_dialog =
    text "title" "Deploy a rule"
    ∷ text "target" "Target:"
    ∷ text "targetAgents" "agent | agents"
    ∷ text "kindMode" "SELinux mode"
    ∷ text "kindBoolean" "Boolean"
    ∷ text "kindChcon" "File context"
    ∷ text "booleanName" "Boolean name"
    ∷ text "recursive" "Recursive (-R)"
    ∷ text "filePath" "File path"
    ∷ text "contextType" "Context type"
    ∷ []

unfoldable pub denials : Dict
denials =
    text "quarantine" "Quarantine"
    ∷ text "restore" "Restore"
    ∷ text "delete" "Delete"
    ∷ text "confirmDelete"
        "Permanently delete this denial? | Permanently delete these {count} denials?"
    ∷ text "occurrenceCount" "{count} occurrence | {count} occurrences"
    ∷ text "quarantineExplainer"
        "Denials you set aside. They no longer show in the Denials list, the matrix or the trend chart; restore one to bring it back, or delete it for good."
    ∷ text "quarantineEmpty" "No quarantined denials."
    ∷ text "searchPlaceholder" "Search (command, path, context…)"
    ∷ text "empty" "No denials match these filters."
    ∷ text "fixButton" "Fix on this machine"
    ∷ text "confirmFix"
        "Ask this agent to generate a suggested rule (audit2allow) for this denial? It will never be installed automatically — you'll review and approve it on the Suggestions page."
    ∷ text "fixRequested" "Suggestion requested"
    ∷ []

unfoldable pub matrix : Dict
matrix =
    text "title" "Denial matrix"
    ∷ text "explainer"
        "Aggregated fleet-wide by source → target signature — a signature hitting several hosts is a sign a policy/boolean fix is needed globally, not case by case."
    ∷ text "allTime" "All time"
    ∷ text "lastNDays" "{count} day | {count} days"
    ∷ text "colOccurrences" "Occur."
    ∷ text "colHostsHit" "Hosts hit"
    ∷ text "colHosts" "Hosts"
    ∷ text "empty" "No denials observed in this window."
    ∷ text "trendTitle" "Denials per host over time"
    ∷ text "trendExplainer"
        "Last 14 days — a sudden jump right after a policy change is worth a look."
    ∷ []

unfoldable pub revert_reason : Dict
revert_reason =
    text "in_flight" "An undo, or the original command, is still in flight — wait for its result."
    ∷ text "unknown_previous"
        "The state before this rule wasn't recorded, so it can't be undone automatically."
    ∷ text "not_supported" "This kind of entry can't be removed."
    ∷ []

unfoldable pub revert : Dict
unfolding revert_reason
revert =
    text "delete" "Delete"
    ∷ text "inProgress" "undoing…"
    ∷ text "confirmMachine"
        "Undo this rule on {host} and remove it from the list?\n\nWhat will run on the machine: {action}"
    ∷ text "confirmRecord" "This command never took effect on the machine. Remove it from the list?"
    ∷ dict "reason" revert_reason
    ∷ []

unfoldable pub deployments : Dict
deployments =
    text "allStatuses" "All statuses" ∷ text "empty" "No deployments match these filters." ∷ []

unfoldable pub compliance : Dict
compliance =
    text "fleetCompliance" "Fleet compliance"
    ∷ text "agentsCountMeta"
        "{count} agent | {count} agents · basic checks (not a CIS-style benchmark)"
    ∷ text "colModeEnforcing" "Enforcing mode"
    ∷ text "colAgentReachable" "Agent reachable"
    ∷ text "colTargetedPolicy" "Targeted policy"
    ∷ text "colNoOpenAlerts" "No open alerts"
    ∷ text "empty" "No agent enrolled yet."
    ∷ text "checkOk" "ok"
    ∷ text "checkFail" "fail"
    ∷ text "checkUnknown" "unknown"
    ∷ []

unfoldable pub alerts : Dict
alerts =
    text "filterOpen" "Open"
    ∷ text "filterAcknowledged" "Acknowledged"
    ∷ text "filterAll" "All"
    ∷ text "allSeverities" "All severities"
    ∷ text "severityHigh" "high"
    ∷ text "severityMedium" "medium"
    ∷ text "severityLow" "low"
    ∷ text "acknowledgedMeta" " · acknowledged on {date} by {by}"
    ∷ text "acknowledge" "Acknowledge"
    ∷ text "acknowledgedTag" "acknowledged"
    ∷ text "empty" "No alerts match this filter."
    ∷ []

unfoldable pub suggestions_status : Dict
suggestions_status =
    text "pending" "pending review"
    ∷ text "approved" "approved"
    ∷ text "rejected" "rejected"
    ∷ text "failed" "generation failed"
    ∷ text "generating" "generating…"
    ∷ []

unfoldable pub suggestions : Dict
unfolding suggestions_status
suggestions =
    text "explainer"
      "Auto-generated with audit2allow the moment a new denial signature is first seen — never applied automatically. Review the .te text, pick which hosts to push it to, then approve."
    ∷ text "allStatuses" "All statuses"
    ∷ dict "status" suggestions_status
    ∷ text "backToList" "Back to the list"
    ∷ text "pickAgents" "Deploy to:"
    ∷ text "approveAndDeploy" "Approve & deploy"
    ∷ text "reject" "Reject"
    ∷ text "reviewedMeta" "Reviewed {date} by {by}"
    ∷ text "confirmApprove"
        "Install this module on {count} agent | Install this module on {count} agents"
    ∷ text "confirmReject" "Reject this suggestion?"
    ∷ text "empty" "No suggestions match this filter."
    ∷ []

unfoldable pub collect_status : Dict
collect_status =
    text "starting" "starting…"
    ∷ text "collecting" "collecting…"
    ∷ text "stopping" "stopping…"
    ∷ text "collected" "collected, ready"
    ∷ text "done" "done"
    ∷ text "failed" "failed"
    ∷ []

unfoldable pub collect : Dict
unfolding collect_status
collect =
    text "startButton" "Collect this domain"
    ∷ text "confirmStart"
        "Make {domain} temporarily permissive on {host} for {minutes} min to log every denial it hits, then generate one suggestion covering all of them? It goes back to enforced on its own even if this fails."
    ∷ text "alreadyRunning" "A collection is already running for this domain on this agent"
    ∷ text "panelTitle" "Domain collections"
    ∷ text "stopButton" "Stop now"
    ∷ text "generateButton" "Generate suggestion"
    ∷ text "pageExplainer"
        "Every domain collection run, live: a progress bar and countdown while it's collecting, a distinct-denial count, and the Generate/Stop actions."
    ∷ text "scanSectionLabel" "Collect every SELinux log of one agent (all domains at once)"
    ∷ text "chooseAgent" "Choose an agent…"
    ∷ text "remaining" "{time} left"
    ∷ text "liveCount" "{count} distinct denial so far | {count} distinct denials so far"
    ∷ text "starting" "starting — waiting for the agent to confirm…"
    ∷ text "stoppingNote" "stopping — waiting for the agent to confirm…"
    ∷ text "pageEmpty" "No collection has been started yet."
    ∷ text "until" "until {time}"
    ∷ text "linesCollected" "{count} distinct denial | {count} distinct denials"
    ∷ text "viewSuggestion" "View suggestion"
    ∷ dict "status" collect_status
    ∷ []

unfoldable pub scan : Dict
scan =
    text "startButton" "Scan the whole machine ({count})"
    ∷ text "noDomainsYet" "Waiting for the agent's first inventory of its active domains"
    ∷ text "confirmStart"
        "Make all {count} active domains on {host} temporarily permissive for {minutes} min to log every denial across the whole machine, then generate one suggestion per domain? Each one goes back to enforced on its own even if this fails."
    ∷ text "nothingStarted"
        "No domain could be started (all are already being collected, or none are known yet)."
    ∷ text "groupTitle" "Machine scan ({count} domains)"
    ∷ text "stopAllButton" "Stop all"
    ∷ text "generateAllButton" "Generate {count} suggestions"
    ∷ []

unfoldable pub settings_siem : Dict
settings_siem =
    text "title" "SIEM / EDR (OpenSearch-compatible)"
    ∷ text "help"
        "Works with Wazuh's indexer, or any Suricata/ECS log stack shipped into an OpenSearch or Elasticsearch index."
    ∷ text "name" "Display name"
    ∷ text "url" "URL"
    ∷ text "index" "Index pattern"
    ∷ text "hostField" "Host field"
    ∷ text "user" "User"
    ∷ text "password" "Password"
    ∷ text "insecureSkipVerify" "Skip TLS certificate verification (self-signed)"
    ∷ []

unfoldable pub settings_librenms : Dict
settings_librenms =
    text "title" "LibreNMS"
    ∷ text "help"
        "Queries LibreNMS's alert log for the agent's host around the same time as a denial."
    ∷ text "url" "URL"
    ∷ text "token" "API token"
    ∷ []

unfoldable pub settings : Dict
unfolding settings_siem settings_librenms
settings =
    text "explainer"
      "Connect an already-deployed SIEM/EDR/monitoring tool (Wazuh, Suricata via an ELK-family stack, LibreNMS…) so denials can be correlated on demand against what it already saw around the same time — nothing is bulk-ingested or duplicated here, only queried live when you open an agent's correlation panel. Saving takes effect immediately, no restart needed."
    ∷ text "enabled" "Enabled"
    ∷ text "testConnection" "Test connection"
    ∷ text "saved" "Saved."
    ∷ text "testOk" "Connection OK."
    ∷ text "testFailed" "Connection failed: {error}"
    ∷ text "passwordUnchanged" "(unchanged — leave blank to keep it)"
    ∷ dict "siem" settings_siem
    ∷ dict "librenms" settings_librenms
    ∷ []
