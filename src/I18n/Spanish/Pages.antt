-- ===== src/I18n/Spanish/Pages.antt =====
-- Spanish texts of frontend/src/i18n/translations.ts.
use simply_se.I18n.Dict.{Dict, text, dict, [], ◌∷◌}

unfoldable pub agents : Dict
agents =
    text "noSelection" "Sin selección"
    ∷ text "selectedCount" "{count} seleccionado(s)"
    ∷ text "clear" "Vaciar"
    ∷ text "setPermissive" "Cambiar a permissive"
    ∷ text "empty" "Todavía no hay ningún agente registrado."
    ∷ []

unfoldable pub agent_detail : Dict
agent_detail =
    text "backToInventory" "Inventario"
    ∷ text "address" "Dirección"
    ∷ text "confirmSetMode" "¿Cambiar {hostname} al modo {mode}?"
    ∷ text "confirmToggleBoolean" "¿Poner el booleano {name} en {value} en {hostname}?"
    ∷ text "deployRuleOnAgent" "Desplegar una regla en este agente"
    ∷ text "rulesApplied" "Reglas aplicadas"
    ∷ text "noRulesYet" "Todavía no se ha desplegado ninguna regla en este agente."
    ∷ text "booleans" "Booleanos SELinux"
    ∷ text "collectedAt" "recopilado {date}"
    ∷ text "toggle" "Cambiar"
    ∷ text "noInventoryYet"
        "Todavía no hay datos — el agente los envía automáticamente tras conectarse."
    ∷ text "modules" "Módulos de política"
    ∷ text "trackedFiles" "Archivos vigilados (detección de deriva)"
    ∷ text "trackedFilesExplainer"
        "Un cambio de hash aquí (fuera de un despliegue desde este master) genera una alerta config_drift."
    ∷ text "hash" "Hash (sha256)"
    ∷ text "logsRecentDenials" "Logs / denegaciones recientes"
    ∷ text "noDenialsForAgent" "No se ha observado ninguna denegación para este agente."
    ∷ text "correlatedEvents" "Eventos correlacionados (±60s, fuentes externas)"
    ∷ text "noCorrelatedEvents"
        "No se encontró ningún evento coincidente en las fuentes configuradas."
    ∷ []

unfoldable pub deploy_dialog : Dict
deploy_dialog =
    text "title" "Desplegar una regla"
    ∷ text "target" "Destino:"
    ∷ text "targetAgents" "agente | agentes"
    ∷ text "kindMode" "Modo SELinux"
    ∷ text "kindBoolean" "Booleano"
    ∷ text "kindChcon" "Contexto de archivo"
    ∷ text "booleanName" "Nombre del booleano"
    ∷ text "recursive" "Recursivo (-R)"
    ∷ text "filePath" "Ruta del archivo"
    ∷ text "contextType" "Tipo de contexto"
    ∷ []

unfoldable pub denials : Dict
denials =
    text "quarantine" "Cuarentena"
    ∷ text "restore" "Restaurar"
    ∷ text "delete" "Eliminar"
    ∷ text "confirmDelete"
        "¿Eliminar definitivamente esta denegación? | ¿Eliminar definitivamente estas {count} denegaciones?"
    ∷ text "occurrenceCount" "{count} ocurrencia | {count} ocurrencias"
    ∷ text "quarantineExplainer"
        "Denegaciones apartadas. Ya no aparecen en la lista de denegaciones, la matriz ni la tendencia; restaure una para recuperarla, o elimínela definitivamente."
    ∷ text "quarantineEmpty" "No hay denegaciones en cuarentena."
    ∷ text "searchPlaceholder" "Buscar (comando, ruta, contexto…)"
    ∷ text "empty" "Ninguna denegación coincide con estos filtros."
    ∷ text "fixButton" "Corregir en esta máquina"
    ∷ text "confirmFix"
        "¿Pedir a este agente que genere una regla sugerida (audit2allow) para esta denegación? Nunca se instalará automáticamente — la revisarás y aprobarás en la página Sugerencias."
    ∷ text "fixRequested" "Sugerencia solicitada"
    ∷ []

unfoldable pub matrix : Dict
matrix =
    text "title" "Matriz de denegaciones"
    ∷ text "explainer"
        "Agregado en toda la flota por firma origen → destino — una firma que afecta a varios hosts indica que hace falta una regla de política global, no caso por caso."
    ∷ text "allTime" "Todo el historial"
    ∷ text "lastNDays" "{count} día | {count} días"
    ∷ text "colOccurrences" "Ocurr."
    ∷ text "colHostsHit" "Hosts afectados"
    ∷ text "colHosts" "Hosts"
    ∷ text "empty" "No se ha observado ninguna denegación en esta ventana."
    ∷ text "trendTitle" "Denegaciones por host en el tiempo"
    ∷ text "trendExplainer"
        "Últimos 14 días — un pico justo después de un cambio de política merece revisión."
    ∷ []

unfoldable pub revert_reason : Dict
revert_reason =
    text "in_flight" "Una anulación, o el comando original, sigue en curso — espere su resultado."
    ∷ text "unknown_previous"
        "El estado anterior a esta regla no se registró, así que no puede deshacerse automáticamente."
    ∷ text "not_supported" "Este tipo de entrada no puede eliminarse."
    ∷ []

unfoldable pub revert : Dict
unfolding revert_reason
revert =
    text "delete" "Eliminar"
    ∷ text "inProgress" "deshaciendo…"
    ∷ text "confirmMachine"
        "¿Deshacer esta regla en {host} y quitarla de la lista?\n\nLo que se ejecutará en la máquina: {action}"
    ∷ text "confirmRecord" "Este comando nunca tuvo efecto en la máquina. ¿Quitarlo de la lista?"
    ∷ dict "reason" revert_reason
    ∷ []

unfoldable pub deployments : Dict
deployments =
    text "allStatuses" "Todos los estados"
    ∷ text "empty" "Ningún despliegue coincide con estos filtros."
    ∷ []

unfoldable pub compliance : Dict
compliance =
    text "fleetCompliance" "Cumplimiento de la flota"
    ∷ text "agentsCountMeta"
        "{count} agente | {count} agentes · verificaciones básicas (no es un benchmark tipo CIS)"
    ∷ text "colModeEnforcing" "Modo enforcing"
    ∷ text "colAgentReachable" "Agente accesible"
    ∷ text "colTargetedPolicy" "Política targeted"
    ∷ text "colNoOpenAlerts" "Sin alertas abiertas"
    ∷ text "empty" "Todavía no hay ningún agente registrado."
    ∷ text "checkOk" "ok"
    ∷ text "checkFail" "fallo"
    ∷ text "checkUnknown" "desconocido"
    ∷ []

unfoldable pub alerts : Dict
alerts =
    text "filterOpen" "Abiertas"
    ∷ text "filterAcknowledged" "Reconocidas"
    ∷ text "filterAll" "Todas"
    ∷ text "allSeverities" "Todas las severidades"
    ∷ text "severityHigh" "alta"
    ∷ text "severityMedium" "media"
    ∷ text "severityLow" "baja"
    ∷ text "acknowledgedMeta" " · reconocida el {date} por {by}"
    ∷ text "acknowledge" "Reconocer"
    ∷ text "acknowledgedTag" "reconocida"
    ∷ text "empty" "Ninguna alerta coincide con este filtro."
    ∷ []

unfoldable pub suggestions_status : Dict
suggestions_status =
    text "pending" "pendiente de revisión"
    ∷ text "approved" "aprobada"
    ∷ text "rejected" "rechazada"
    ∷ text "failed" "generación fallida"
    ∷ text "generating" "generando…"
    ∷ []

unfoldable pub suggestions : Dict
unfolding suggestions_status
suggestions =
    text "explainer"
      "Generadas automáticamente con audit2allow en cuanto se ve por primera vez una nueva firma de denegación — nunca se aplican automáticamente. Revisa el texto .te, elige los hosts destino y luego aprueba."
    ∷ text "allStatuses" "Todos los estados"
    ∷ dict "status" suggestions_status
    ∷ text "backToList" "Volver a la lista"
    ∷ text "pickAgents" "Desplegar en:"
    ∷ text "approveAndDeploy" "Aprobar y desplegar"
    ∷ text "reject" "Rechazar"
    ∷ text "reviewedMeta" "Revisada el {date} por {by}"
    ∷ text "confirmApprove"
        "Instalar este módulo en {count} agente | Instalar este módulo en {count} agentes"
    ∷ text "confirmReject" "¿Rechazar esta sugerencia?"
    ∷ text "empty" "Ninguna sugerencia coincide con este filtro."
    ∷ []

unfoldable pub collect_status : Dict
collect_status =
    text "starting" "iniciando…"
    ∷ text "collecting" "recolectando…"
    ∷ text "stopping" "deteniendo…"
    ∷ text "collected" "recolectada, lista"
    ∷ text "done" "terminada"
    ∷ text "failed" "fallida"
    ∷ []

unfoldable pub collect : Dict
unfolding collect_status
collect =
    text "startButton" "Recolectar este dominio"
    ∷ text "confirmStart"
        "¿Hacer que {domain} sea temporalmente permisivo en {host} durante {minutes} min para registrar todas sus denegaciones, y generar una sola sugerencia para todas? Vuelve a enforced por sí solo aunque esto falle."
    ∷ text "alreadyRunning" "Ya hay una recolección en curso para este dominio en este agente"
    ∷ text "panelTitle" "Recolecciones de dominio"
    ∷ text "stopButton" "Detener ahora"
    ∷ text "generateButton" "Generar sugerencia"
    ∷ text "pageExplainer"
        "Cada recolección de dominio, en vivo: barra de progreso y cuenta regresiva mientras recolecta, número de denegaciones distintas, y las acciones Generar/Detener."
    ∷ text "scanSectionLabel"
        "Recolectar todos los registros SELinux de un agente (todos los dominios a la vez)"
    ∷ text "chooseAgent" "Elegir un agente…"
    ∷ text "remaining" "quedan {time}"
    ∷ text "liveCount"
        "{count} denegación distinta hasta ahora | {count} denegaciones distintas hasta ahora"
    ∷ text "starting" "iniciando — esperando confirmación del agente…"
    ∷ text "stoppingNote" "deteniendo — esperando confirmación del agente…"
    ∷ text "pageEmpty" "Aún no se ha iniciado ninguna recolección."
    ∷ text "until" "hasta las {time}"
    ∷ text "linesCollected" "{count} denegación distinta | {count} denegaciones distintas"
    ∷ text "viewSuggestion" "Ver sugerencia"
    ∷ dict "status" collect_status
    ∷ []

unfoldable pub scan : Dict
scan =
    text "startButton" "Escanear toda la máquina ({count})"
    ∷ text "noDomainsYet" "Esperando el primer inventario de dominios activos del agente"
    ∷ text "confirmStart"
        "¿Hacer temporalmente permisivos los {count} dominios activos en {host} durante {minutes} min para registrar todas las denegaciones de la máquina, y generar una sugerencia por dominio? Cada uno vuelve a enforced por sí solo aunque esto falle."
    ∷ text "nothingStarted"
        "No se pudo iniciar ningún dominio (todos ya se están recolectando, o ninguno es conocido aún)."
    ∷ text "groupTitle" "Escaneo de máquina ({count} dominios)"
    ∷ text "stopAllButton" "Detener todo"
    ∷ text "generateAllButton" "Generar {count} sugerencias"
    ∷ []

unfoldable pub settings_siem : Dict
settings_siem =
    text "title" "SIEM / EDR (compatible con OpenSearch)"
    ∷ text "help"
        "Funciona con el indexador de Wazuh, o cualquier pila de logs Suricata/ECS enviada a un índice OpenSearch o Elasticsearch."
    ∷ text "name" "Nombre para mostrar"
    ∷ text "url" "URL"
    ∷ text "index" "Patrón de índice"
    ∷ text "hostField" "Campo de host"
    ∷ text "user" "Usuario"
    ∷ text "password" "Contraseña"
    ∷ text "insecureSkipVerify" "Omitir verificación del certificado TLS (autofirmado)"
    ∷ []

unfoldable pub settings_librenms : Dict
settings_librenms =
    text "title" "LibreNMS"
    ∷ text "help"
        "Consulta el registro de alertas de LibreNMS para el host del agente, alrededor del mismo momento que una denegación."
    ∷ text "url" "URL"
    ∷ text "token" "Token de API"
    ∷ []

unfoldable pub settings : Dict
unfolding settings_siem settings_librenms
settings =
    text "explainer"
      "Conecte una herramienta SIEM/EDR/supervisión ya desplegada (Wazuh, Suricata mediante una pila ELK, LibreNMS…) para correlacionar las denegaciones bajo demanda con lo que ya vio en el mismo momento — nada se ingiere en bloque ni se duplica aquí, solo se consulta en vivo al abrir el panel de correlación de un agente. Guardar surte efecto de inmediato, sin reiniciar."
    ∷ text "enabled" "Activado"
    ∷ text "testConnection" "Probar conexión"
    ∷ text "saved" "Guardado."
    ∷ text "testOk" "Conexión OK."
    ∷ text "testFailed" "Conexión fallida: {error}"
    ∷ text "passwordUnchanged" "(sin cambios — déjelo vacío para conservarlo)"
    ∷ dict "siem" settings_siem
    ∷ dict "librenms" settings_librenms
    ∷ []
