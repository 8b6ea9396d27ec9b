-- ===== src/I18n/Spanish/Shell.antt =====
-- Spanish texts of frontend/src/i18n/translations.ts.
use simply_se.I18n.Dict.{Dict, text, dict, [], ◌∷◌}

unfoldable pub nav_cat : Dict
nav_cat =
    text "overview" "Resumen"
    ∷ text "fleet" "Flota"
    ∷ text "detection" "Detección"
    ∷ text "remediation" "Remediación"
    ∷ text "resources" "Recursos"
    ∷ []

unfoldable pub nav : Dict
unfolding nav_cat
nav =
    text "dashboard" "Dashboard"
    ∷ text "agents" "Agentes"
    ∷ text "denials" "Denegaciones"
    ∷ text "matrix" "Matriz"
    ∷ text "deployments" "Despliegues"
    ∷ text "compliance" "Cumplimiento"
    ∷ text "alerts" "Alertas"
    ∷ text "suggestions" "Sugerencias"
    ∷ text "collections" "Recolecciones"
    ∷ text "wiki" "Wiki"
    ∷ text "settings" "Ajustes"
    ∷ text "quarantine" "Cuarentena"
    ∷ text "charts" "Gráficos"
    ∷ dict "cat" nav_cat
    ∷ []

unfoldable pub nav_desc : Dict
nav_desc =
    text "charts"
      "Explora el historial en gráficos: elige datos, un período y uno de los 47 tipos de gráfico."
    ∷ text "dashboard" "El estado de la flota de un vistazo, organizado a tu manera."
    ∷ text "agents" "Cada máquina registrada, su modo SELinux y su última actividad."
    ∷ text "compliance" "El resultado de las verificaciones básicas, máquina por máquina."
    ∷ text "denials" "Accesos bloqueados por SELinux, con su contexto."
    ∷ text "matrix" "Denegaciones agrupadas por origen y destino en toda la flota."
    ∷ text "alerts" "Firmas nuevas o anómalas pendientes de revisión."
    ∷ text "quarantine" "Denegaciones apartadas para que no aparezcan en otros lugares."
    ∷ text "suggestions" "Correcciones de política propuestas, para validar antes de instalarlas."
    ∷ text "collections"
        "Registrar temporalmente todas las denegaciones de un dominio en una máquina."
    ∷ text "deployments" "Reglas enviadas a las máquinas y su estado de aplicación."
    ∷ text "wiki" "Cómo funcionan SELinux y SimplySE."
    ∷ text "settings" "Conexiones con tu SIEM y tus herramientas de supervisión."
    ∷ []

unfoldable pub topbar : Dict
topbar =
    text "mainNav" "Navegación principal"
    ∷ text "fleetOnline" "{online}/{total} en línea"
    ∷ text "language" "Idioma"
    ∷ text "openMenu" "Abrir el menú"
    ∷ text "closeMenu" "Cerrar el menú"
    ∷ []

unfoldable pub theme : Dict
theme = text "toLight" "Cambiar al tema claro" ∷ text "toDark" "Cambiar al tema oscuro" ∷ []

unfoldable pub common_columns : Dict
common_columns =
    text "date" "Fecha"
    ∷ text "agent" "Agente"
    ∷ text "type" "Tipo"
    ∷ text "parameters" "Parámetros"
    ∷ text "status" "Estado"
    ∷ text "message" "Mensaje"
    ∷ text "host" "Host"
    ∷ text "mode" "Modo"
    ∷ text "osKernel" "SO / kernel"
    ∷ text "policy" "Política"
    ∷ text "lastSeen" "Visto"
    ∷ text "path" "Ruta"
    ∷ text "command" "Comando"
    ∷ text "sourceTarget" "Origen → destino"
    ∷ text "classPerm" "Clase / perm"
    ∷ text "pid" "PID"
    ∷ text "timestamp" "Marca de tiempo"
    ∷ text "name" "Nombre"
    ∷ text "value" "Valor"
    ∷ text "version" "Versión"
    ∷ []

unfoldable pub common : Dict
unfolding common_columns
common =
    text "loading" "Cargando…"
    ∷ text "save" "Guardar"
    ∷ text "previous" "Anterior"
    ∷ text "next" "Siguiente"
    ∷ text "never" "nunca"
    ∷ text "allAgents" "Todos los agentes"
    ∷ text "open" "Abrir"
    ∷ text "viewAll" "Ver todo"
    ∷ text "deployRule" "Desplegar una regla"
    ∷ text "resultsRange" "{from}–{to} de {total}"
    ∷ text "noResults" "0 resultados"
    ∷ text "filter" "Filtrar…"
    ∷ text "cancel" "Cancelar"
    ∷ text "deploy" "Desplegar"
    ∷ text "deploying" "Desplegando…"
    ∷ dict "columns" common_columns
    ∷ []
