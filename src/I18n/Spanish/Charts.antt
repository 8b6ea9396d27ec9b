-- ===== src/I18n/Spanish/Charts.antt =====
-- Spanish texts of frontend/src/i18n/translations.ts.
use simply_se.I18n.Dict.{Dict, text, dict, [], ◌∷◌}

unfoldable pub charts_stats : Dict
charts_stats =
    text "min" "Mín"
    ∷ text "max" "Máx"
    ∷ text "median" "Mediana"
    ∷ text "mean" "Media"
    ∷ text "q1" "1.er cuartil"
    ∷ text "q3" "3.er cuartil"
    ∷ text "outliers" "Valores atípicos"
    ∷ []

unfoldable pub charts_per_bucket : Dict
charts_per_bucket = text "hour" "por hora" ∷ text "day" "por día" ∷ text "week" "por semana" ∷ []

unfoldable pub charts_categories : Dict
charts_categories =
    text "classic" "Clásicos"
    ∷ text "share" "Composición"
    ∷ text "kpi" "KPI y rendimiento"
    ∷ text "stats" "Estadísticas"
    ∷ text "corr" "Correlación"
    ∷ []

unfoldable pub charts_datasets : Dict
charts_datasets =
    text "denials" "Denegaciones"
    ∷ text "commands" "Despliegues de reglas"
    ∷ text "alerts" "Alertas"
    ∷ text "fleet" "Estado de la flota"
    ∷ text "signatures" "Firmas distintas"
    ∷ []

unfoldable pub charts_dims : Dict
charts_dims =
    text "agent" "Máquina"
    ∷ text "tclass" "Clase"
    ∷ text "scontext" "Dominio origen"
    ∷ text "tcontext" "Tipo destino"
    ∷ text "perms" "Permisos"
    ∷ text "type" "Tipo"
    ∷ text "status" "Estado"
    ∷ text "kind" "Naturaleza"
    ∷ text "severity" "Severidad"
    ∷ text "mode" "Modo"
    ∷ text "policy" "Política"
    ∷ text "error" "Error"
    ∷ text "acked_by" "Confirmada por"
    ∷ []

unfoldable pub charts_measures : Dict
charts_measures =
    text "denials" "Denegaciones"
    ∷ text "commands" "Despliegues"
    ∷ text "alerts" "Alertas"
    ∷ text "score" "Puntuación de cumplimiento"
    ∷ text "online" "Disponibilidad"
    ∷ text "openAlerts" "Alertas abiertas (media)"
    ∷ text "failed" "Despliegues fallidos"
    ∷ text "reverts" "Reversiones"
    ∷ text "failure_rate" "Tasa de fallos"
    ∷ text "latency" "Tiempo de confirmación"
    ∷ text "high" "Alertas de severidad alta"
    ∷ text "acked" "Confirmadas"
    ∷ text "open" "Aún abiertas"
    ∷ text "ack_time" "Tiempo hasta la confirmación"
    ∷ text "open_age" "Antigüedad abierta"
    ∷ text "signatures" "Firmas nuevas"
    ∷ []

unfoldable pub charts_vars_denials : Dict
charts_vars_denials =
    text "total" "Denegaciones"
    ∷ text "signatures" "Firmas distintas"
    ∷ text "hours" "Horas activas"
    ∷ []

unfoldable pub charts_vars_commands : Dict
charts_vars_commands =
    text "total" "Despliegues" ∷ text "failed" "Fallos" ∷ text "types" "Tipos distintos" ∷ []

unfoldable pub charts_vars_alerts : Dict
charts_vars_alerts =
    text "total" "Alertas" ∷ text "high" "Alertas altas" ∷ text "types" "Tipos distintos" ∷ []

unfoldable pub charts_vars_fleet : Dict
charts_vars_fleet =
    text "score" "Puntuación"
    ∷ text "online" "Disponibilidad (%)"
    ∷ text "alerts" "Alertas abiertas"
    ∷ []

unfoldable pub charts_vars_signatures : Dict
charts_vars_signatures =
    text "total" "Firmas nuevas" ∷ text "sources" "Dominios origen distintos" ∷ []

unfoldable pub charts_vars : Dict
unfolding charts_vars_denials charts_vars_commands charts_vars_alerts charts_vars_fleet
    charts_vars_signatures
charts_vars =
    dict "denials" charts_vars_denials
    ∷ dict "commands" charts_vars_commands
    ∷ dict "alerts" charts_vars_alerts
    ∷ dict "fleet" charts_vars_fleet
    ∷ dict "signatures" charts_vars_signatures
    ∷ []

unfoldable pub charts_periods : Dict
charts_periods =
    text "1" "24 h"
    ∷ text "7" "7 días"
    ∷ text "30" "30 días"
    ∷ text "90" "90 días"
    ∷ text "365" "1 año"
    ∷ []

unfoldable pub charts_weekday : Dict
charts_weekday =
    text "label" "Día"
    ∷ text "mon" "Lun"
    ∷ text "tue" "Mar"
    ∷ text "wed" "Mié"
    ∷ text "thu" "Jue"
    ∷ text "fri" "Vie"
    ∷ text "sat" "Sáb"
    ∷ text "sun" "Dom"
    ∷ []

unfoldable pub charts_title : Dict
charts_title =
    text "byDim" "{dataset} por {dim}"
    ∷ text "byDim2" "{dataset} por {dim} y {dim2}"
    ∷ text "byDim3" "{dataset} por {dim}, {dim2} y {dim3}"
    ∷ text "overTime" "{dataset} {unit}"
    ∷ text "byHour" "{dataset}: patrón horario"
    ∷ text "distribution" "{dataset}: distribución {unit}"
    ∷ text "pair" "{x} y {y}, por máquina y día"
    ∷ text "vars" "Correlación: {vars}"
    ∷ text "withPeriod" "{title} ({period})"
    ∷ []

unfoldable pub charts_ui : Dict
charts_ui =
    text "target" "Objetivo (KPI, opcional)"
    ∷ text "targetHint" "período anterior"
    ∷ text "dataset" "Datos"
    ∷ text "dimension" "Agrupar por"
    ∷ text "measure" "Medida"
    ∷ text "period" "Período"
    ∷ text "families" "Familias de gráficos"
    ∷ text "configure" "Elegir un gráfico"
    ∷ text "use" "Usar"
    ∷ text "add" "Añadir al dashboard"
    ∷ text "added" "Añadido al dashboard"
    ∷ text "addFailed" "No se pudo añadir: {error}"
    ∷ text "historySince" "Historial conservado desde el {date}"
    ∷ text "historyKept" "Conservación: {days} días"
    ∷ text "noHistory" "Todavía no hay historial registrado para estos datos."
    ∷ text "explain"
        "El historial se guarda aparte: un gráfico conserva sus datos aunque se resuelva o elimine una denegación, o se quite un despliegue o una alerta de su lista."
    ∷ []

unfoldable pub charts_types : Dict
charts_types =
    text "bar" "Barras verticales"
    ∷ text "column" "Columnas verticales"
    ∷ text "bar-h" "Barras horizontales"
    ∷ text "grouped-bar" "Barras agrupadas"
    ∷ text "stacked-bar" "Barras apiladas"
    ∷ text "stacked-100" "Barras apiladas 100 %"
    ∷ text "line" "Línea"
    ∷ text "multi-line" "Líneas múltiples"
    ∷ text "area" "Área"
    ∷ text "stacked-area" "Áreas apiladas"
    ∷ text "step" "Línea escalonada"
    ∷ text "combo" "Combinado barras + línea"
    ∷ text "waterfall" "Cascada (waterfall)"
    ∷ text "heatmap" "Mapa de calor"
    ∷ text "pie" "Gráfico circular"
    ∷ text "donut" "Anillo"
    ∷ text "semi-donut" "Semianillo"
    ∷ text "treemap" "Treemap"
    ∷ text "sunburst" "Sunburst"
    ∷ text "marimekko" "Marimekko"
    ∷ text "kpi" "Cifra clave"
    ∷ text "kpi-delta" "Cifra clave + variación"
    ∷ text "kpi-spark" "Cifra clave + sparkline"
    ∷ text "gauge" "Indicador"
    ∷ text "progress" "Barra de progreso"
    ∷ text "bullet" "Bullet chart"
    ∷ text "target-actual" "Objetivo vs real"
    ∷ text "scorecard" "Scorecard"
    ∷ text "metric-card" "Tarjeta de métrica"
    ∷ text "delta" "Indicador de variación"
    ∷ text "histogram" "Histograma"
    ∷ text "boxplot" "Diagrama de caja"
    ∷ text "violin" "Violín"
    ∷ text "scatter" "Dispersión"
    ∷ text "bubble" "Burbujas"
    ∷ text "density" "Densidad"
    ∷ text "dot-plot" "Dot plot"
    ∷ text "strip" "Strip plot"
    ∷ text "beeswarm" "Beeswarm"
    ∷ text "ecdf" "ECDF"
    ∷ text "pareto" "Pareto"
    ∷ text "qq" "QQ plot"
    ∷ text "hour-heatmap" "Mapa de calor horario"
    ∷ text "corr-matrix" "Matriz de correlación"
    ∷ text "corr-heatmap" "Mapa de calor de correlación"
    ∷ text "pair-plot" "Pair plot"
    ∷ text "hexbin" "Hexbin"
    ∷ text "scatterAgent" "Máquina"
    ∷ []

unfoldable pub charts : Dict
unfolding charts_stats charts_per_bucket charts_categories charts_datasets charts_dims
    charts_measures charts_vars charts_periods charts_weekday charts_title charts_ui charts_types
charts =
    text "other" "Otros"
    ∷ text "samples" "Lecturas"
    ∷ text "movingAverage" "Media móvil ({n})"
    ∷ text "start" "Inicio"
    ∷ text "end" "Fin"
    ∷ text "increase" "Subida"
    ∷ text "decrease" "Bajada"
    ∷ text "level" "Nivel"
    ∷ text "observations" "observaciones"
    ∷ text "ofColumn" "de la columna"
    ∷ text "ofTotal" "del total"
    ∷ text "all" "Todo"
    ∷ text "cumulative" "Acumulado (%)"
    ∷ text "qqTheory" "Cuantiles teóricos (normal)"
    ∷ text "qqObserved" "Cuantiles observados"
    ∷ text "points" "pts"
    ∷ text "noPrevious" "Sin período anterior"
    ∷ text "vsPrevious" "vs período anterior"
    ∷ text "vsTarget" "vs objetivo"
    ∷ text "target" "Objetivo"
    ∷ text "actual" "Real"
    ∷ text "ofTarget" "del objetivo"
    ∷ text "periodLong" "últimas 24 horas | últimos {n} días"
    ∷ text "perBucketNote" "{n} puntos, {unit}"
    ∷ text "noData" "No hay datos en este período."
    ∷ text "notEnough" "No hay datos suficientes para este gráfico."
    ∷ text "drawFailed" "No se pudo dibujar este gráfico."
    ∷ text "unknownChart" "Tipo de gráfico desconocido."
    ∷ text "loadFailed" "No se pudo cargar: {error}"
    ∷ text "refreshFailed" "falló la actualización"
    ∷ text "truncated"
        "Muchos datos: la respuesta se truncó. Reduce el período para un resultado completo."
    ∷ text "showData" "Ver los datos"
    ∷ text "showChart" "Ver el gráfico"
    ∷ text "date" "Fecha"
    ∷ text "path" "Ruta"
    ∷ text "current" "Período actual"
    ∷ text "previous" "Período anterior"
    ∷ dict "stats" charts_stats
    ∷ dict "perBucket" charts_per_bucket
    ∷ dict "categories" charts_categories
    ∷ dict "datasets" charts_datasets
    ∷ dict "dims" charts_dims
    ∷ dict "measures" charts_measures
    ∷ dict "vars" charts_vars
    ∷ dict "periods" charts_periods
    ∷ dict "weekday" charts_weekday
    ∷ text "previousPeriod" "Período anterior"
    ∷ text "ofPrevious" "del período anterior"
    ∷ text "noTarget"
        "Nada con qué comparar: no hay período anterior registrado ni objetivo definido."
    ∷ text "noCorrelation" "Correlación indefinida: una de las dos variables nunca cambia."
    ∷ dict "title" charts_title
    ∷ dict "ui" charts_ui
    ∷ dict "types" charts_types
    ∷ []
