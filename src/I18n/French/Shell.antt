-- ===== src/I18n/French/Shell.antt =====
-- French texts of frontend/src/i18n/translations.ts.
use simply_se.I18n.Dict.{Dict, text, dict, [], ◌∷◌}

unfoldable pub nav_cat : Dict
nav_cat =
    text "overview" "Vue d'ensemble"
    ∷ text "fleet" "Parc"
    ∷ text "detection" "Détection"
    ∷ text "remediation" "Remédiation"
    ∷ text "resources" "Ressources"
    ∷ []

unfoldable pub nav : Dict
unfolding nav_cat
nav =
    text "dashboard" "Dashboard"
    ∷ text "agents" "Agents"
    ∷ text "denials" "Denials"
    ∷ text "matrix" "Matrice"
    ∷ text "deployments" "Déploiements"
    ∷ text "compliance" "Conformité"
    ∷ text "alerts" "Alertes"
    ∷ text "suggestions" "Suggestions"
    ∷ text "collections" "Collectes"
    ∷ text "wiki" "Wiki"
    ∷ text "settings" "Paramètres"
    ∷ text "quarantine" "Quarantaine"
    ∷ text "charts" "Graphiques"
    ∷ dict "cat" nav_cat
    ∷ []

unfoldable pub nav_desc : Dict
nav_desc =
    text "charts"
      "Explorez l'historique en graphiques : choisissez des données, une période et un type de graphique parmi 47."
    ∷ text "dashboard" "L'état du parc en un coup d'œil, disposé comme vous le voulez."
    ∷ text "agents" "Chaque machine enrôlée, son mode SELinux et sa dernière activité."
    ∷ text "compliance" "Le résultat des vérifications de base, machine par machine."
    ∷ text "denials" "Les accès bloqués par SELinux, avec leur contexte."
    ∷ text "matrix" "Les denials regroupés par source et par cible sur tout le parc."
    ∷ text "alerts" "Les signatures nouvelles ou anormales à examiner."
    ∷ text "quarantine" "Les denials mis de côté pour ne plus apparaître ailleurs."
    ∷ text "suggestions" "Les correctifs de politique proposés, à valider avant toute installation."
    ∷ text "collections" "Enregistrer temporairement tous les denials d'un domaine sur une machine."
    ∷ text "deployments" "Les règles envoyées aux machines et leur état d'application."
    ∷ text "wiki" "Comprendre SELinux et le fonctionnement de SimplySE."
    ∷ text "settings" "Les connexions à votre SIEM et à vos outils de supervision."
    ∷ []

unfoldable pub topbar : Dict
topbar =
    text "mainNav" "Navigation principale"
    ∷ text "fleetOnline" "{online}/{total} en ligne"
    ∷ text "language" "Langue"
    ∷ text "openMenu" "Ouvrir le menu"
    ∷ text "closeMenu" "Fermer le menu"
    ∷ []

unfoldable pub theme : Dict
theme = text "toLight" "Passer au thème clair" ∷ text "toDark" "Passer au thème sombre" ∷ []

unfoldable pub common_columns : Dict
common_columns =
    text "date" "Date"
    ∷ text "agent" "Agent"
    ∷ text "type" "Type"
    ∷ text "parameters" "Paramètres"
    ∷ text "status" "Statut"
    ∷ text "message" "Message"
    ∷ text "host" "Hôte"
    ∷ text "mode" "Mode"
    ∷ text "osKernel" "OS / noyau"
    ∷ text "policy" "Politique"
    ∷ text "lastSeen" "Vu"
    ∷ text "path" "Chemin"
    ∷ text "command" "Commande"
    ∷ text "sourceTarget" "Source → cible"
    ∷ text "classPerm" "Classe / perm"
    ∷ text "pid" "PID"
    ∷ text "timestamp" "Horodatage"
    ∷ text "name" "Nom"
    ∷ text "value" "Valeur"
    ∷ text "version" "Version"
    ∷ []

unfoldable pub common : Dict
unfolding common_columns
common =
    text "loading" "Chargement…"
    ∷ text "save" "Enregistrer"
    ∷ text "previous" "Précédent"
    ∷ text "next" "Suivant"
    ∷ text "never" "jamais"
    ∷ text "allAgents" "Tous les agents"
    ∷ text "open" "Ouvrir"
    ∷ text "viewAll" "Tout voir"
    ∷ text "deployRule" "Déployer une règle"
    ∷ text "resultsRange" "{from}–{to} sur {total}"
    ∷ text "noResults" "0 résultat"
    ∷ text "filter" "Filtrer…"
    ∷ text "cancel" "Annuler"
    ∷ text "deploy" "Déployer"
    ∷ text "deploying" "Déploiement…"
    ∷ dict "columns" common_columns
    ∷ []
