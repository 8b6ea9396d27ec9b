-- ===== src/I18n/French/Pages.antt =====
-- French texts of frontend/src/i18n/translations.ts.
use simply_se.I18n.Dict.{Dict, text, dict, [], ◌∷◌}

unfoldable pub agents : Dict
agents =
    text "noSelection" "Aucune sélection"
    ∷ text "selectedCount" "{count} sélectionné(s)"
    ∷ text "clear" "Vider"
    ∷ text "setPermissive" "Passer en permissive"
    ∷ text "empty" "Aucun agent enrôlé pour l'instant."
    ∷ []

unfoldable pub agent_detail : Dict
agent_detail =
    text "backToInventory" "Inventaire"
    ∷ text "address" "Adresse"
    ∷ text "confirmSetMode" "Passer {hostname} en mode {mode} ?"
    ∷ text "confirmToggleBoolean" "Passer le booléen {name} à {value} sur {hostname} ?"
    ∷ text "deployRuleOnAgent" "Déployer une règle sur cet agent"
    ∷ text "rulesApplied" "Règles appliquées"
    ∷ text "noRulesYet" "Aucune règle déployée sur cet agent pour l'instant."
    ∷ text "booleans" "Booléens SELinux"
    ∷ text "collectedAt" "relevé {date}"
    ∷ text "toggle" "Basculer"
    ∷ text "noInventoryYet"
        "Aucune donnée pour l'instant — envoyée automatiquement par l'agent après connexion."
    ∷ text "modules" "Modules de policy"
    ∷ text "trackedFiles" "Fichiers surveillés (détection de dérive)"
    ∷ text "trackedFilesExplainer"
        "Un changement de hash ici (hors d'un déploiement depuis ce master) déclenche une alerte config_drift."
    ∷ text "hash" "Hash (sha256)"
    ∷ text "logsRecentDenials" "Logs / denials récents"
    ∷ text "noDenialsForAgent" "Aucun denial observé pour cet agent."
    ∷ text "correlatedEvents" "Événements corrélés (±60s, sources externes)"
    ∷ text "noCorrelatedEvents" "Aucun événement correspondant dans les sources configurées."
    ∷ []

unfoldable pub deploy_dialog : Dict
deploy_dialog =
    text "title" "Déployer une règle"
    ∷ text "target" "Cible :"
    ∷ text "targetAgents" "agent | agents"
    ∷ text "kindMode" "Mode SELinux"
    ∷ text "kindBoolean" "Booléen"
    ∷ text "kindChcon" "Contexte fichier"
    ∷ text "booleanName" "Nom du booléen"
    ∷ text "recursive" "Récursif (-R)"
    ∷ text "filePath" "Chemin du fichier"
    ∷ text "contextType" "Type de contexte"
    ∷ []

unfoldable pub denials : Dict
denials =
    text "quarantine" "Quarantaine"
    ∷ text "restore" "Restaurer"
    ∷ text "delete" "Supprimer"
    ∷ text "confirmDelete"
        "Supprimer définitivement ce denial ? | Supprimer définitivement ces {count} denials ?"
    ∷ text "occurrenceCount" "{count} occurrence | {count} occurrences"
    ∷ text "quarantineExplainer"
        "Denials mis de côté. Ils n'apparaissent plus dans la liste des denials, la matrice ni la tendance ; restaurez-en un pour le remettre, ou supprimez-le définitivement."
    ∷ text "quarantineEmpty" "Aucun denial en quarantaine."
    ∷ text "searchPlaceholder" "Rechercher (commande, chemin, contexte…)"
    ∷ text "empty" "Aucun denial ne correspond à ces filtres."
    ∷ text "fixButton" "Corriger sur cette machine"
    ∷ text "confirmFix"
        "Demander à cet agent de générer une règle suggérée (audit2allow) pour cette denial ? Elle ne sera jamais installée automatiquement — tu la relis et l'approuves depuis la page Suggestions."
    ∷ text "fixRequested" "Suggestion demandée"
    ∷ []

unfoldable pub matrix : Dict
matrix =
    text "title" "Matrice des denials"
    ∷ text "explainer"
        "Agrégé sur tout le parc par signature source → cible — une signature qui touche plusieurs hôtes indique qu'il faut une règle de politique globale, pas du cas par cas."
    ∷ text "allTime" "Tout l'historique"
    ∷ text "lastNDays" "{count} jour | {count} jours"
    ∷ text "colOccurrences" "Occur."
    ∷ text "colHostsHit" "Hôtes touchés"
    ∷ text "colHosts" "Hôtes"
    ∷ text "empty" "Aucun denial observé sur cette fenêtre."
    ∷ text "trendTitle" "Denials par hôte dans le temps"
    ∷ text "trendExplainer"
        "14 derniers jours — un pic juste après un changement de politique mérite d'être regardé."
    ∷ []

unfoldable pub revert_reason : Dict
revert_reason =
    text "in_flight"
      "Une annulation, ou la commande d'origine, est encore en cours — attendez son résultat."
    ∷ text "unknown_previous"
        "L'état d'avant cette règle n'a pas été enregistré : elle ne peut pas être annulée automatiquement."
    ∷ text "not_supported" "Ce type d'entrée ne peut pas être supprimé."
    ∷ []

unfoldable pub revert : Dict
unfolding revert_reason
revert =
    text "delete" "Supprimer"
    ∷ text "inProgress" "annulation…"
    ∷ text "confirmMachine"
        "Annuler cette règle sur {host} et la retirer de la liste ?\n\nCe qui sera exécuté sur la machine : {action}"
    ∷ text "confirmRecord"
        "Cette commande n'a jamais pris effet sur la machine. La retirer de la liste ?"
    ∷ dict "reason" revert_reason
    ∷ []

unfoldable pub deployments : Dict
deployments =
    text "allStatuses" "Tous les statuts"
    ∷ text "empty" "Aucun déploiement ne correspond à ces filtres."
    ∷ []

unfoldable pub compliance : Dict
compliance =
    text "fleetCompliance" "Conformité de la flotte"
    ∷ text "agentsCountMeta"
        "{count} agent | {count} agents · vérifications de base (pas un référentiel type CIS)"
    ∷ text "colModeEnforcing" "Mode enforcing"
    ∷ text "colAgentReachable" "Agent joignable"
    ∷ text "colTargetedPolicy" "Politique targeted"
    ∷ text "colNoOpenAlerts" "Aucune alerte ouverte"
    ∷ text "empty" "Aucun agent enrôlé pour l'instant."
    ∷ text "checkOk" "ok"
    ∷ text "checkFail" "échec"
    ∷ text "checkUnknown" "inconnu"
    ∷ []

unfoldable pub alerts : Dict
alerts =
    text "filterOpen" "Ouvertes"
    ∷ text "filterAcknowledged" "Acquittées"
    ∷ text "filterAll" "Toutes"
    ∷ text "allSeverities" "Toutes sévérités"
    ∷ text "severityHigh" "haute"
    ∷ text "severityMedium" "moyenne"
    ∷ text "severityLow" "basse"
    ∷ text "acknowledgedMeta" " · acquittée le {date} par {by}"
    ∷ text "acknowledge" "Acquitter"
    ∷ text "acknowledgedTag" "acquittée"
    ∷ text "empty" "Aucune alerte ne correspond à ce filtre."
    ∷ []

unfoldable pub suggestions_status : Dict
suggestions_status =
    text "pending" "en attente de revue"
    ∷ text "approved" "approuvée"
    ∷ text "rejected" "rejetée"
    ∷ text "failed" "génération échouée"
    ∷ text "generating" "génération…"
    ∷ []

unfoldable pub suggestions : Dict
unfolding suggestions_status
suggestions =
    text "explainer"
      "Générées automatiquement avec audit2allow dès qu'une nouvelle signature de denial est vue pour la première fois — jamais appliquées automatiquement. Relis le texte .te, choisis les hôtes cibles, puis approuve."
    ∷ text "allStatuses" "Tous les statuts"
    ∷ dict "status" suggestions_status
    ∷ text "backToList" "Retour à la liste"
    ∷ text "pickAgents" "Déployer sur :"
    ∷ text "approveAndDeploy" "Approuver et déployer"
    ∷ text "reject" "Rejeter"
    ∷ text "reviewedMeta" "Revue le {date} par {by}"
    ∷ text "confirmApprove"
        "Installer ce module sur {count} agent | Installer ce module sur {count} agents"
    ∷ text "confirmReject" "Rejeter cette suggestion ?"
    ∷ text "empty" "Aucune suggestion ne correspond à ce filtre."
    ∷ []

unfoldable pub collect_status : Dict
collect_status =
    text "starting" "démarrage…"
    ∷ text "collecting" "collecte…"
    ∷ text "stopping" "arrêt…"
    ∷ text "collected" "collectée, prête"
    ∷ text "done" "terminée"
    ∷ text "failed" "échouée"
    ∷ []

unfoldable pub collect : Dict
unfolding collect_status
collect =
    text "startButton" "Collecter ce domaine"
    ∷ text "confirmStart"
        "Rendre {domain} temporairement permissif sur {host} pendant {minutes} min pour journaliser tous ses denials, puis générer une seule suggestion pour tout ? Le domaine revient à enforced tout seul même en cas d'échec."
    ∷ text "alreadyRunning" "Une collecte est déjà en cours pour ce domaine sur cet agent"
    ∷ text "panelTitle" "Collectes de domaine"
    ∷ text "stopButton" "Arrêter maintenant"
    ∷ text "generateButton" "Générer la suggestion"
    ∷ text "pageExplainer"
        "Chaque collecte « ce domaine », en direct : barre de progression et compte à rebours pendant la collecte, nombre de denials distincts, et les actions Générer/Arrêter."
    ∷ text "scanSectionLabel"
        "Collecter toutes les logs SELinux d'un agent (tous les domaines d'un coup)"
    ∷ text "chooseAgent" "Choisir un agent…"
    ∷ text "remaining" "{time} restant"
    ∷ text "liveCount"
        "{count} denial distinct pour l'instant | {count} denials distincts pour l'instant"
    ∷ text "starting" "démarrage — en attente de confirmation de l'agent…"
    ∷ text "stoppingNote" "arrêt — en attente de confirmation de l'agent…"
    ∷ text "pageEmpty" "Aucune collecte n'a encore été lancée."
    ∷ text "until" "jusqu'à {time}"
    ∷ text "linesCollected" "{count} denial distinct | {count} denials distincts"
    ∷ text "viewSuggestion" "Voir la suggestion"
    ∷ dict "status" collect_status
    ∷ []

unfoldable pub scan : Dict
scan =
    text "startButton" "Scanner toute la machine ({count})"
    ∷ text "noDomainsYet" "En attente du premier inventaire des domaines actifs de l'agent"
    ∷ text "confirmStart"
        "Rendre temporairement permissifs les {count} domaines actifs sur {host} pendant {minutes} min pour journaliser tous les denials de la machine, puis générer une suggestion par domaine ? Chacun revient à enforced tout seul même en cas d'échec."
    ∷ text "nothingStarted"
        "Aucun domaine n'a pu être démarré (tous sont déjà en cours de collecte, ou aucun n'est encore connu)."
    ∷ text "groupTitle" "Scan machine ({count} domaines)"
    ∷ text "stopAllButton" "Tout arrêter"
    ∷ text "generateAllButton" "Générer {count} suggestions"
    ∷ []

unfoldable pub settings_siem : Dict
settings_siem =
    text "title" "SIEM / EDR (compatible OpenSearch)"
    ∷ text "help"
        "Fonctionne avec l'indexeur de Wazuh, ou toute stack de logs Suricata/ECS envoyée vers un index OpenSearch ou Elasticsearch."
    ∷ text "name" "Nom d'affichage"
    ∷ text "url" "URL"
    ∷ text "index" "Motif d'index"
    ∷ text "hostField" "Champ hôte"
    ∷ text "user" "Utilisateur"
    ∷ text "password" "Mot de passe"
    ∷ text "insecureSkipVerify" "Ignorer la vérification du certificat TLS (auto-signé)"
    ∷ []

unfoldable pub settings_librenms : Dict
settings_librenms =
    text "title" "LibreNMS"
    ∷ text "help"
        "Interroge le journal d'alertes LibreNMS pour l'hôte de l'agent, autour du même moment qu'un déni."
    ∷ text "url" "URL"
    ∷ text "token" "Jeton API"
    ∷ []

unfoldable pub settings : Dict
unfolding settings_siem settings_librenms
settings =
    text "explainer"
      "Connectez un outil SIEM/EDR/supervision déjà déployé (Wazuh, Suricata via une stack ELK, LibreNMS…) pour corréler les dénis à la demande avec ce qu'il a déjà vu au même moment — rien n'est ingéré en masse ni dupliqué ici, seulement interrogé en direct à l'ouverture du panneau de corrélation d'un agent. L'enregistrement prend effet immédiatement, sans redémarrage."
    ∷ text "enabled" "Activé"
    ∷ text "testConnection" "Tester la connexion"
    ∷ text "saved" "Enregistré."
    ∷ text "testOk" "Connexion OK."
    ∷ text "testFailed" "Échec de la connexion : {error}"
    ∷ text "passwordUnchanged" "(inchangé — laisser vide pour le conserver)"
    ∷ dict "siem" settings_siem
    ∷ dict "librenms" settings_librenms
    ∷ []
