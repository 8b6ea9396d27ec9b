-- ===== src/I18n/Spanish/Dashboard.antt =====
-- Spanish texts of frontend/src/i18n/translations.ts.
use simply_se.I18n.Dict.{Dict, text, dict, [], ◌∷◌}

unfoldable pub dashboard_template_overview : Dict
dashboard_template_overview =
    text "name" "Visión general"
    ∷ text "desc"
        "Las cuatro familias de un vistazo: flota, denegaciones, alertas y despliegues, con la tendencia y las listas a atender."
    ∷ []

unfoldable pub dashboard_template_security : Dict
dashboard_template_security =
    text "name" "Seguridad"
    ∷ text "desc"
        "Las denegaciones en detalle (por clase y dominio origen), con alertas, despliegues y salud de la flota al lado."
    ∷ []

unfoldable pub dashboard_template_compliance : Dict
dashboard_template_compliance =
    text "name" "Cumplimiento"
    ∷ text "desc"
        "El cumplimiento en detalle (puntuación por modo, controles fallidos), con denegaciones, alertas y despliegues al lado."
    ∷ []

unfoldable pub dashboard_template_deployments : Dict
dashboard_template_deployments =
    text "name" "Despliegues"
    ∷ text "desc"
        "Los despliegues en detalle (resultado por estado, más recientes), con denegaciones, alertas y salud de la flota al lado."
    ∷ []

unfoldable pub dashboard_template_fleet : Dict
dashboard_template_fleet =
    text "name" "Flota"
    ∷ text "desc"
        "Cada máquina en todas las familias: disponibilidad, denegaciones, alertas y despliegues por agente."
    ∷ []

unfoldable pub dashboard_template : Dict
unfolding dashboard_template_overview dashboard_template_security dashboard_template_compliance
    dashboard_template_deployments dashboard_template_fleet
dashboard_template =
    text "title" "Plantillas de dashboard"
    ∷ text "intro"
        "Cada plantilla llena una pantalla sin espacio perdido, muestra denegaciones, despliegues, alertas y la flota, y reemplaza la disposición actual. Después puede ajustarla."
    ∷ text "apply" "Usar esta plantilla"
    ∷ dict "overview" dashboard_template_overview
    ∷ dict "security" dashboard_template_security
    ∷ dict "compliance" dashboard_template_compliance
    ∷ dict "deployments" dashboard_template_deployments
    ∷ dict "fleet" dashboard_template_fleet
    ∷ []

unfoldable pub dashboard_widgets : Dict
dashboard_widgets =
    text "chart" "Gráfico (viñeta configurable)"
    ∷ text "statAgents" "Agentes registrados"
    ∷ text "statEnforcing" "Estado enforcing"
    ∷ text "statDenials" "Número de denegaciones"
    ∷ text "statCommands" "Número de comandos recientes"
    ∷ text "statAlerts" "Número de alertas abiertas"
    ∷ text "statCompliance" "Puntuación de cumplimiento"
    ∷ text "topSignatures" "Firmas más frecuentes"
    ∷ text "recentDeployments" "Despliegues recientes"
    ∷ text "openAlerts" "Lista de alertas abiertas"
    ∷ text "denialTrend" "Curva de denegaciones"
    ∷ text "agentsVignettes" "Viñetas de agentes"
    ∷ text "complianceChecks" "Diagrama de cumplimiento"
    ∷ text "agentsByMode" "Diagrama de agentes por modo"
    ∷ text "pendingSuggestions" "Sugerencias pendientes"
    ∷ text "activeCollections" "Recolecciones de dominio"
    ∷ text "attentionAgents" "Agentes a vigilar"
    ∷ []

unfoldable pub dashboard_attention_reason : Dict
dashboard_attention_reason =
    text "offline" "Fuera de línea"
    ∷ text "disabled" "Desactivado"
    ∷ text "permissive" "Permisivo"
    ∷ text "policyMismatch" "Política distinta"
    ∷ text "outdated" "Versión desactualizada"
    ∷ []

unfoldable pub dashboard : Dict
unfolding dashboard_template dashboard_widgets dashboard_attention_reason
dashboard =
    text "masterUnreachable" "No se pudo contactar al master: {error}"
    ∷ text "statEnrolledAgents" "Agentes registrados"
    ∷ text "statEnrolledAgentsMeta" "{online} en línea · {offline} fuera de línea"
    ∷ text "statEnforcing" "Enforcing"
    ∷ text "statEnforcingMeta" "{permissive} permissive · {disabled} disabled"
    ∷ text "statDenials" "Denegaciones (ventana observada)"
    ∷ text "statDenialsMeta" "{count} firmas distintas"
    ∷ text "statRecentCommands" "Comandos recientes"
    ∷ text "statRecentCommandsMeta" "ver Despliegues"
    ∷ text "statOpenAlerts" "Alertas abiertas"
    ∷ text "statOpenAlertsMeta" "firmas nuevas o anómalas"
    ∷ text "statCompliance" "Cumplimiento"
    ∷ text "statComplianceMeta" "verificaciones básicas"
    ∷ text "topSignatures" "Firmas más frecuentes"
    ∷ text "colOccurrences" "Ocurr."
    ∷ text "colAgents" "Agentes"
    ∷ text "noDenialsYet" "No se ha observado ninguna denegación todavía."
    ∷ text "recentDeployments" "Despliegues recientes"
    ∷ text "history" "Historial"
    ∷ text "noDeploymentsYet" "Todavía no hay despliegues."
    ∷ text "openAlerts" "Alertas abiertas"
    ∷ text "alertCenter" "Centro de alertas"
    ∷ text "noOpenAlerts" "No hay alertas abiertas."
    ∷ text "configureChart" "Configurar el gráfico"
    ∷ text "customize" "Personalizar"
    ∷ text "doneCustomizing" "Listo"
    ∷ text "addWidget" "Añadir un widget"
    ∷ text "randomize" "Aleatorio"
    ∷ text "randomizeHint" "Reemplazar el dashboard por uno aleatorio que llena una pantalla"
    ∷ text "templatesButton" "Plantillas"
    ∷ text "templatesHint" "Elegir un dashboard listo para usar"
    ∷ text "undoLayout" "Deshacer"
    ∷ text "undoLayoutHint" "Volver a la disposición anterior"
    ∷ dict "template" dashboard_template
    ∷ text "removeWidget" "Quitar este widget"
    ∷ text "widgetLimitLabel" "Filas mostradas"
    ∷ text "savingLayout" "Guardando…"
    ∷ text "layoutSaved" "Diseño guardado"
    ∷ dict "widgets" dashboard_widgets
    ∷ text "denialTrendTitle" "Tendencia de denegaciones (14 días)"
    ∷ text "noTrendData" "Todavía no hay datos de tendencia."
    ∷ text "trendTooltip" "{count} denegaciones el {date}"
    ∷ text "agentsVignettesTitle" "Agentes"
    ∷ text "complianceChecksTitle" "Parámetros de cumplimiento"
    ∷ text "agentsByModeTitle" "Agentes por modo"
    ∷ text "pendingSuggestionsTitle" "Sugerencias pendientes ({count})"
    ∷ text "noPendingSuggestions" "Nada pendiente de revisión."
    ∷ text "activeCollectionsTitle" "Recolecciones de dominio ({count})"
    ∷ text "noActiveCollections" "No hay ninguna recolección en curso."
    ∷ text "collectionEndsAt" "hasta las {time}"
    ∷ text "collectionLines" "{count} líneas"
    ∷ text "attentionAgentsTitle" "A vigilar ({count})"
    ∷ text "noAttentionAgents" "Nada que vigilar por ahora."
    ∷ dict "attentionReason" dashboard_attention_reason
    ∷ text "checkEnforcing" "Modo enforcing"
    ∷ text "checkConnected" "Agente accesible"
    ∷ text "checkPolicy" "Política targeted"
    ∷ text "checkNoOpenAlerts" "Sin alertas abiertas"
    ∷ []
