-- ===== src/I18n/French/Dashboard.antt =====
-- French texts of frontend/src/i18n/translations.ts.
use simply_se.I18n.Dict.{Dict, text, dict, [], ◌∷◌}

unfoldable pub dashboard_template_overview : Dict
dashboard_template_overview =
    text "name" "Vue d'ensemble"
    ∷ text "desc"
        "Les quatre familles d'un coup d'œil : parc, refus, alertes et déploiements, avec la tendance et les listes à traiter."
    ∷ []

unfoldable pub dashboard_template_security : Dict
dashboard_template_security =
    text "name" "Sécurité"
    ∷ text "desc"
        "Les refus en détail (par classe et domaine source), avec alertes, déploiements et santé du parc à côté."
    ∷ []

unfoldable pub dashboard_template_compliance : Dict
dashboard_template_compliance =
    text "name" "Conformité"
    ∷ text "desc"
        "La conformité en détail (score par mode, contrôles en écart), avec refus, alertes et déploiements à côté."
    ∷ []

unfoldable pub dashboard_template_deployments : Dict
dashboard_template_deployments =
    text "name" "Déploiements"
    ∷ text "desc"
        "Les déploiements en détail (résultat par statut, plus récents), avec refus, alertes et santé du parc à côté."
    ∷ []

unfoldable pub dashboard_template_fleet : Dict
dashboard_template_fleet =
    text "name" "Parc"
    ∷ text "desc"
        "Chaque machine sur toutes les familles : disponibilité, refus, alertes et déploiements par agent."
    ∷ []

unfoldable pub dashboard_template : Dict
unfolding dashboard_template_overview dashboard_template_security dashboard_template_compliance
    dashboard_template_deployments dashboard_template_fleet
dashboard_template =
    text "title" "Modèles de dashboard"
    ∷ text "intro"
        "Chaque modèle remplit un écran sans espace perdu, montre les refus, les déploiements, les alertes et le parc, et remplace la disposition actuelle. Vous pourrez ensuite l'ajuster."
    ∷ text "apply" "Utiliser ce modèle"
    ∷ dict "overview" dashboard_template_overview
    ∷ dict "security" dashboard_template_security
    ∷ dict "compliance" dashboard_template_compliance
    ∷ dict "deployments" dashboard_template_deployments
    ∷ dict "fleet" dashboard_template_fleet
    ∷ []

unfoldable pub dashboard_widgets : Dict
dashboard_widgets =
    text "chart" "Graphique (vignette configurable)"
    ∷ text "statAgents" "Agents enrôlés"
    ∷ text "statEnforcing" "État enforcing"
    ∷ text "statDenials" "Nombre de denials"
    ∷ text "statCommands" "Nombre de commandes récentes"
    ∷ text "statAlerts" "Nombre d'alertes ouvertes"
    ∷ text "statCompliance" "Score de conformité"
    ∷ text "topSignatures" "Signatures les plus fréquentes"
    ∷ text "recentDeployments" "Déploiements récents"
    ∷ text "openAlerts" "Liste des alertes ouvertes"
    ∷ text "denialTrend" "Courbe des denials"
    ∷ text "agentsVignettes" "Vignettes des agents"
    ∷ text "complianceChecks" "Diagramme de conformité"
    ∷ text "agentsByMode" "Diagramme des agents par mode"
    ∷ text "pendingSuggestions" "Suggestions en attente"
    ∷ text "activeCollections" "Collectes de domaine"
    ∷ text "attentionAgents" "Agents à surveiller"
    ∷ []

unfoldable pub dashboard_attention_reason : Dict
dashboard_attention_reason =
    text "offline" "Hors ligne"
    ∷ text "disabled" "Désactivé"
    ∷ text "permissive" "Permissive"
    ∷ text "policyMismatch" "Politique différente"
    ∷ text "outdated" "Version en retard"
    ∷ []

unfoldable pub dashboard : Dict
unfolding dashboard_template dashboard_widgets dashboard_attention_reason
dashboard =
    text "masterUnreachable" "Impossible de joindre le master : {error}"
    ∷ text "statEnrolledAgents" "Agents enrôlés"
    ∷ text "statEnrolledAgentsMeta" "{online} en ligne · {offline} hors ligne"
    ∷ text "statEnforcing" "Enforcing"
    ∷ text "statEnforcingMeta" "{permissive} permissive · {disabled} disabled"
    ∷ text "statDenials" "Denials (fenêtre observée)"
    ∷ text "statDenialsMeta" "{count} signatures distinctes"
    ∷ text "statRecentCommands" "Commandes récentes"
    ∷ text "statRecentCommandsMeta" "voir Déploiements"
    ∷ text "statOpenAlerts" "Alertes ouvertes"
    ∷ text "statOpenAlertsMeta" "signatures nouvelles ou anormales"
    ∷ text "statCompliance" "Conformité"
    ∷ text "statComplianceMeta" "vérifications de base"
    ∷ text "topSignatures" "Signatures les plus fréquentes"
    ∷ text "colOccurrences" "Occur."
    ∷ text "colAgents" "Agents"
    ∷ text "noDenialsYet" "Aucun denial observé pour l'instant."
    ∷ text "recentDeployments" "Déploiements récents"
    ∷ text "history" "Historique"
    ∷ text "noDeploymentsYet" "Aucun déploiement pour l'instant."
    ∷ text "openAlerts" "Alertes ouvertes"
    ∷ text "alertCenter" "Centre d'alertes"
    ∷ text "noOpenAlerts" "Aucune alerte ouverte."
    ∷ text "configureChart" "Configurer le graphique"
    ∷ text "customize" "Personnaliser"
    ∷ text "doneCustomizing" "Terminé"
    ∷ text "addWidget" "Ajouter un widget"
    ∷ text "randomize" "Aléatoire"
    ∷ text "randomizeHint" "Remplacer le dashboard par un dashboard aléatoire qui remplit un écran"
    ∷ text "templatesButton" "Modèles"
    ∷ text "templatesHint" "Choisir un dashboard prêt à l'emploi"
    ∷ text "undoLayout" "Annuler"
    ∷ text "undoLayoutHint" "Revenir à la disposition précédente"
    ∷ dict "template" dashboard_template
    ∷ text "removeWidget" "Retirer ce widget"
    ∷ text "widgetLimitLabel" "Lignes affichées"
    ∷ text "savingLayout" "Enregistrement…"
    ∷ text "layoutSaved" "Disposition enregistrée"
    ∷ dict "widgets" dashboard_widgets
    ∷ text "denialTrendTitle" "Tendance des denials (14 jours)"
    ∷ text "noTrendData" "Pas encore de données de tendance."
    ∷ text "trendTooltip" "{count} denials le {date}"
    ∷ text "agentsVignettesTitle" "Agents"
    ∷ text "complianceChecksTitle" "Paramètres de conformité"
    ∷ text "agentsByModeTitle" "Agents par mode"
    ∷ text "pendingSuggestionsTitle" "Suggestions en attente ({count})"
    ∷ text "noPendingSuggestions" "Rien n'attend de relecture."
    ∷ text "activeCollectionsTitle" "Collectes de domaine ({count})"
    ∷ text "noActiveCollections" "Aucune collecte en cours."
    ∷ text "collectionEndsAt" "jusqu'à {time}"
    ∷ text "collectionLines" "{count} lignes"
    ∷ text "attentionAgentsTitle" "À surveiller ({count})"
    ∷ text "noAttentionAgents" "Rien à surveiller pour l'instant."
    ∷ dict "attentionReason" dashboard_attention_reason
    ∷ text "checkEnforcing" "Mode enforcing"
    ∷ text "checkConnected" "Agent joignable"
    ∷ text "checkPolicy" "Politique targeted"
    ∷ text "checkNoOpenAlerts" "Aucune alerte ouverte"
    ∷ []
