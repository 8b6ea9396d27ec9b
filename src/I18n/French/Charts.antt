-- ===== src/I18n/French/Charts.antt =====
-- French texts of frontend/src/i18n/translations.ts.
use simply_se.I18n.Dict.{Dict, text, dict, [], ◌∷◌}

unfoldable pub charts_stats : Dict
charts_stats =
    text "min" "Min"
    ∷ text "max" "Max"
    ∷ text "median" "Médiane"
    ∷ text "mean" "Moyenne"
    ∷ text "q1" "1er quartile"
    ∷ text "q3" "3e quartile"
    ∷ text "outliers" "Valeurs extrêmes"
    ∷ []

unfoldable pub charts_per_bucket : Dict
charts_per_bucket = text "hour" "par heure" ∷ text "day" "par jour" ∷ text "week" "par semaine" ∷ []

unfoldable pub charts_categories : Dict
charts_categories =
    text "classic" "Classiques"
    ∷ text "share" "Répartition"
    ∷ text "kpi" "KPI et performance"
    ∷ text "stats" "Statistiques"
    ∷ text "corr" "Corrélation"
    ∷ []

unfoldable pub charts_datasets : Dict
charts_datasets =
    text "denials" "Denials"
    ∷ text "commands" "Déploiements de règles"
    ∷ text "alerts" "Alertes"
    ∷ text "fleet" "État du parc"
    ∷ text "signatures" "Signatures distinctes"
    ∷ []

unfoldable pub charts_dims : Dict
charts_dims =
    text "agent" "Machine"
    ∷ text "tclass" "Classe"
    ∷ text "scontext" "Domaine source"
    ∷ text "tcontext" "Type cible"
    ∷ text "perms" "Permissions"
    ∷ text "type" "Type"
    ∷ text "status" "Statut"
    ∷ text "kind" "Nature"
    ∷ text "severity" "Sévérité"
    ∷ text "mode" "Mode"
    ∷ text "policy" "Politique"
    ∷ text "error" "Erreur"
    ∷ text "acked_by" "Acquittée par"
    ∷ []

unfoldable pub charts_measures : Dict
charts_measures =
    text "denials" "Denials"
    ∷ text "commands" "Déploiements"
    ∷ text "alerts" "Alertes"
    ∷ text "score" "Score de conformité"
    ∷ text "online" "Disponibilité"
    ∷ text "openAlerts" "Alertes ouvertes (moyenne)"
    ∷ text "failed" "Déploiements échoués"
    ∷ text "reverts" "Annulations"
    ∷ text "failure_rate" "Taux d'échec"
    ∷ text "latency" "Délai d'acquittement"
    ∷ text "high" "Alertes de sévérité haute"
    ∷ text "acked" "Acquittées"
    ∷ text "open" "Encore ouvertes"
    ∷ text "ack_time" "Délai avant acquittement"
    ∷ text "open_age" "Ancienneté à l'ouverture"
    ∷ text "signatures" "Nouvelles signatures"
    ∷ []

unfoldable pub charts_vars_denials : Dict
charts_vars_denials =
    text "total" "Denials"
    ∷ text "signatures" "Signatures distinctes"
    ∷ text "hours" "Heures actives"
    ∷ []

unfoldable pub charts_vars_commands : Dict
charts_vars_commands =
    text "total" "Déploiements" ∷ text "failed" "Échecs" ∷ text "types" "Types distincts" ∷ []

unfoldable pub charts_vars_alerts : Dict
charts_vars_alerts =
    text "total" "Alertes" ∷ text "high" "Alertes hautes" ∷ text "types" "Types distincts" ∷ []

unfoldable pub charts_vars_fleet : Dict
charts_vars_fleet =
    text "score" "Score" ∷ text "online" "Disponibilité (%)" ∷ text "alerts" "Alertes ouvertes" ∷ []

unfoldable pub charts_vars_signatures : Dict
charts_vars_signatures =
    text "total" "Nouvelles signatures" ∷ text "sources" "Domaines source distincts" ∷ []

unfoldable pub charts_vars : Dict
unfolding charts_vars_denials charts_vars_commands charts_vars_alerts charts_vars_fleet
    charts_vars_signatures
charts_vars =
    dict "denials" charts_vars_denials
    ∷ dict "commands" charts_vars_commands
    ∷ dict "alerts" charts_vars_alerts
    ∷ dict "fleet" charts_vars_fleet
    ∷ dict "signatures" charts_vars_signatures
    ∷ []

unfoldable pub charts_periods : Dict
charts_periods =
    text "1" "24 h"
    ∷ text "7" "7 jours"
    ∷ text "30" "30 jours"
    ∷ text "90" "90 jours"
    ∷ text "365" "1 an"
    ∷ []

unfoldable pub charts_weekday : Dict
charts_weekday =
    text "label" "Jour"
    ∷ text "mon" "Lun"
    ∷ text "tue" "Mar"
    ∷ text "wed" "Mer"
    ∷ text "thu" "Jeu"
    ∷ text "fri" "Ven"
    ∷ text "sat" "Sam"
    ∷ text "sun" "Dim"
    ∷ []

unfoldable pub charts_title : Dict
charts_title =
    text "byDim" "{dataset} par {dim}"
    ∷ text "byDim2" "{dataset} par {dim} et {dim2}"
    ∷ text "byDim3" "{dataset} par {dim}, {dim2} et {dim3}"
    ∷ text "overTime" "{dataset} {unit}"
    ∷ text "byHour" "{dataset} : motif horaire"
    ∷ text "distribution" "{dataset} : distribution {unit}"
    ∷ text "pair" "{x} et {y}, par machine et par jour"
    ∷ text "vars" "Corrélation : {vars}"
    ∷ text "withPeriod" "{title} ({period})"
    ∷ []

unfoldable pub charts_ui : Dict
charts_ui =
    text "target" "Objectif (KPI, facultatif)"
    ∷ text "targetHint" "période précédente"
    ∷ text "dataset" "Données"
    ∷ text "dimension" "Regrouper par"
    ∷ text "measure" "Mesure"
    ∷ text "period" "Période"
    ∷ text "families" "Familles de graphiques"
    ∷ text "configure" "Choisir un graphique"
    ∷ text "use" "Utiliser"
    ∷ text "add" "Ajouter au dashboard"
    ∷ text "added" "Ajouté au dashboard"
    ∷ text "addFailed" "Ajout impossible : {error}"
    ∷ text "historySince" "Historique conservé depuis le {date}"
    ∷ text "historyKept" "Conservation : {days} jours"
    ∷ text "noHistory" "Aucun historique enregistré pour ces données pour l'instant."
    ∷ text "explain"
        "L'historique est conservé à part : un graphique garde ses données même quand un denial est résolu ou supprimé, ou qu'un déploiement ou une alerte est retiré de sa liste."
    ∷ []

unfoldable pub charts_types : Dict
charts_types =
    text "bar" "Barres verticales"
    ∷ text "column" "Colonnes verticales"
    ∷ text "bar-h" "Barres horizontales"
    ∷ text "grouped-bar" "Barres groupées"
    ∷ text "stacked-bar" "Barres empilées"
    ∷ text "stacked-100" "Barres empilées 100 %"
    ∷ text "line" "Courbe"
    ∷ text "multi-line" "Courbes multiples"
    ∷ text "area" "Aire"
    ∷ text "stacked-area" "Aires empilées"
    ∷ text "step" "Courbe en paliers"
    ∷ text "combo" "Combiné barres + courbe"
    ∷ text "waterfall" "Cascade (waterfall)"
    ∷ text "heatmap" "Carte de chaleur"
    ∷ text "pie" "Camembert"
    ∷ text "donut" "Anneau"
    ∷ text "semi-donut" "Demi-anneau"
    ∷ text "treemap" "Treemap"
    ∷ text "sunburst" "Sunburst"
    ∷ text "marimekko" "Marimekko"
    ∷ text "kpi" "Chiffre clé"
    ∷ text "kpi-delta" "Chiffre clé + variation"
    ∷ text "kpi-spark" "Chiffre clé + sparkline"
    ∷ text "gauge" "Jauge"
    ∷ text "progress" "Barre de progression"
    ∷ text "bullet" "Bullet chart"
    ∷ text "target-actual" "Objectif vs réel"
    ∷ text "scorecard" "Scorecard"
    ∷ text "metric-card" "Carte de métrique"
    ∷ text "delta" "Indicateur de variation"
    ∷ text "histogram" "Histogramme"
    ∷ text "boxplot" "Boîte à moustaches"
    ∷ text "violin" "Violon"
    ∷ text "scatter" "Nuage de points"
    ∷ text "bubble" "Bulles"
    ∷ text "density" "Densité"
    ∷ text "dot-plot" "Dot plot"
    ∷ text "strip" "Strip plot"
    ∷ text "beeswarm" "Beeswarm"
    ∷ text "ecdf" "ECDF"
    ∷ text "pareto" "Pareto"
    ∷ text "qq" "QQ plot"
    ∷ text "hour-heatmap" "Carte de chaleur horaire"
    ∷ text "corr-matrix" "Matrice de corrélation"
    ∷ text "corr-heatmap" "Heatmap de corrélation"
    ∷ text "pair-plot" "Pair plot"
    ∷ text "hexbin" "Hexbin"
    ∷ text "scatterAgent" "Machine"
    ∷ []

unfoldable pub charts : Dict
unfolding charts_stats charts_per_bucket charts_categories charts_datasets charts_dims
    charts_measures charts_vars charts_periods charts_weekday charts_title charts_ui charts_types
charts =
    text "other" "Autres"
    ∷ text "samples" "Relevés"
    ∷ text "movingAverage" "Moyenne mobile ({n})"
    ∷ text "start" "Début"
    ∷ text "end" "Fin"
    ∷ text "increase" "Hausse"
    ∷ text "decrease" "Baisse"
    ∷ text "level" "Niveau"
    ∷ text "observations" "observations"
    ∷ text "ofColumn" "de la colonne"
    ∷ text "ofTotal" "du total"
    ∷ text "all" "Tout"
    ∷ text "cumulative" "Cumul (%)"
    ∷ text "qqTheory" "Quantiles théoriques (loi normale)"
    ∷ text "qqObserved" "Quantiles observés"
    ∷ text "points" "pts"
    ∷ text "noPrevious" "Pas de période précédente"
    ∷ text "vsPrevious" "vs période précédente"
    ∷ text "vsTarget" "vs objectif"
    ∷ text "target" "Objectif"
    ∷ text "actual" "Réel"
    ∷ text "ofTarget" "de l'objectif"
    ∷ text "periodLong" "24 dernières heures | {n} derniers jours"
    ∷ text "perBucketNote" "{n} points, {unit}"
    ∷ text "noData" "Aucune donnée sur cette période."
    ∷ text "notEnough" "Pas assez de données pour ce graphique."
    ∷ text "drawFailed" "Ce graphique n'a pas pu être dessiné."
    ∷ text "unknownChart" "Type de graphique inconnu."
    ∷ text "loadFailed" "Chargement impossible : {error}"
    ∷ text "refreshFailed" "actualisation en échec"
    ∷ text "truncated"
        "Beaucoup de données : la réponse a été tronquée. Réduisez la période pour un résultat complet."
    ∷ text "showData" "Voir les données"
    ∷ text "showChart" "Voir le graphique"
    ∷ text "date" "Date"
    ∷ text "path" "Chemin"
    ∷ text "current" "Période actuelle"
    ∷ text "previous" "Période précédente"
    ∷ dict "stats" charts_stats
    ∷ dict "perBucket" charts_per_bucket
    ∷ dict "categories" charts_categories
    ∷ dict "datasets" charts_datasets
    ∷ dict "dims" charts_dims
    ∷ dict "measures" charts_measures
    ∷ dict "vars" charts_vars
    ∷ dict "periods" charts_periods
    ∷ dict "weekday" charts_weekday
    ∷ text "previousPeriod" "Période précédente"
    ∷ text "ofPrevious" "de la période précédente"
    ∷ text "noTarget"
        "Rien à comparer : pas de période précédente enregistrée et aucun objectif défini."
    ∷ text "noCorrelation" "Corrélation indéfinie : une des deux variables ne change jamais."
    ∷ dict "title" charts_title
    ∷ dict "ui" charts_ui
    ∷ dict "types" charts_types
    ∷ []
