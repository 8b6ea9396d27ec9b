-- ===== src/Fleet/Denials.antt =====
-- The plain sentence about a denial: frontend/src/lib/explainDenial.ts. How one character is put in
-- upper case is a parameter.
pub mod Contexts
use Prim.Native.String.{◌++◌}
use simply_se.Base.{
  String, str_eq, ℕ, Bool, true, false, Option, none, some, List, [], ◌∷◌, get_elem?, ltb, length,
  ◌==◌, if◌then◌else◌,
}
use Prim.Native.Char.{Char, code}
use simply_se.Base.Objects.{field, or_else}
use simply_se.I18n.Dict.{Locale, en, fr, es}
use simply_se.I18n.Text.{split, replace_from}

pub record Names : Type 0 where
  pub english : String
  pub french : String
  pub spanish : String

abbrev pub in_language : Locale → Names → String
in_language en n = n.english
in_language fr n = n.french
in_language es n = n.spanish

abbrev named : String → String → String → String → String × Names
named key english french spanish =
    (key, record { english = english; french = french; spanish = spanish })

unfoldable pub friendly_types : List (String × Names)
friendly_types =
    named "httpd_t" "the web server (Apache/httpd)" "le serveur web (Apache/httpd)"
      "el servidor web (Apache/httpd)"
    ∷ named "httpd_sys_content_t" "a website content file" "un fichier de contenu web"
        "un archivo de contenido web"
    ∷ named "sshd_t" "the SSH service" "le service SSH" "el servicio SSH"
    ∷ named "sudo_t" "a command run via sudo" "une commande lancée via sudo"
        "un comando ejecutado vía sudo"
    ∷ named "su_t" "a command run via su" "une commande lancée via su" "un comando ejecutado vía su"
    ∷ named "crond_t" "a scheduled task (cron)" "une tâche planifiée (cron)"
        "una tarea programada (cron)"
    ∷ named "init_t" "systemd (the init process)" "systemd (le processus d'initialisation)"
        "systemd (el proceso de inicio)"
    ∷ named "unconfined_t" "an unconfined (unrestricted) process" "un processus non confiné"
        "un proceso sin confinar"
    ∷ named "bin_t" "a standard system executable" "un exécutable système standard"
        "un ejecutable estándar del sistema"
    ∷ named "user_home_t" "a file in a user's home directory"
        "un fichier du répertoire personnel d'un utilisateur"
        "un archivo del directorio personal de un usuario"
    ∷ named "etc_t" "a system configuration file (/etc)"
        "un fichier de configuration système (/etc)"
        "un archivo de configuración del sistema (/etc)"
    ∷ named "var_log_t" "a system log file" "un fichier de log système"
        "un archivo de log del sistema"
    ∷ named "tmp_t" "a temporary file" "un fichier temporaire" "un archivo temporal"
    ∷ named "postgresql_t" "PostgreSQL" "PostgreSQL" "PostgreSQL"
    ∷ named "mysqld_t" "MySQL/MariaDB" "MySQL/MariaDB" "MySQL/MariaDB"
    ∷ named "named_t" "the DNS server (BIND)" "le serveur DNS (BIND)" "el servidor DNS (BIND)"
    ∷ named "dhcpd_t" "the DHCP server" "le serveur DHCP" "el servidor DHCP"
    ∷ named "sysadm_t" "an admin session" "une session d'administration"
        "una sesión de administración"
    ∷ named "auditd_t" "the audit daemon" "le démon d'audit" "el demonio de auditoría"
    ∷ named "policykit_t" "PolicyKit (privilege authorization)"
        "PolicyKit (autorisation de privilèges)" "PolicyKit (autorización de privilegios)"
    ∷ named "system_dbusd_t" "the D-Bus system daemon" "le démon système D-Bus"
        "el demonio del sistema D-Bus"
    ∷ named "aide_t" "AIDE (file integrity checker)" "AIDE (vérificateur d'intégrité de fichiers)"
        "AIDE (verificador de integridad de archivos)"
    ∷ named "dosfs_t" "a FAT/VFAT filesystem" "un système de fichiers FAT/VFAT"
        "un sistema de archivos FAT/VFAT"
    ∷ named "NetworkManager_t" "NetworkManager" "NetworkManager" "NetworkManager"
    ∷ []

unfoldable pub class_labels : List (String × Names)
class_labels =
    named "file" "a file" "un fichier" "un archivo"
    ∷ named "dir" "a directory" "un répertoire" "un directorio"
    ∷ named "process" "a process" "un processus" "un proceso"
    ∷ named "tcp_socket" "a network connection (TCP)" "une connexion réseau (TCP)"
        "una conexión de red (TCP)"
    ∷ named "udp_socket" "a network connection (UDP)" "une connexion réseau (UDP)"
        "una conexión de red (UDP)"
    ∷ named "unix_stream_socket" "a local socket" "un socket local" "un socket local"
    ∷ named "dbus" "a D-Bus message" "un message D-Bus" "un mensaje D-Bus"
    ∷ named "filesystem" "a filesystem" "un système de fichiers" "un sistema de archivos"
    ∷ named "capability" "a system capability" "une capability système" "una capability del sistema"
    ∷ named "lnk_file" "a symbolic link" "un lien symbolique" "un enlace simbólico"
    ∷ named "sock_file" "a socket file" "un fichier socket" "un archivo de socket"
    ∷ named "chr_file" "a device file" "un fichier de périphérique" "un archivo de dispositivo"
    ∷ []

-- The third part of a context, or the whole of a text that has fewer parts.
unfoldable pub type_from_context : String → String
type_from_context ctx =
    let parts = split b':' ctx in
    if ltb 2 (length parts) then or_else (get_elem? parts 2) "" else ctx

-- `replace(/_t$/, "")`.
unfoldable pub strip_t : String → String
strip_t String.[] = String.[]
strip_t (String.◌∷◌ c s) =
    let rest = strip_t s in if str_eq (String.◌∷◌ c s) "_t" then String.[] else String.◌∷◌ c rest

unfoldable pub humanize_type : String → String
unfolding strip_t replace_from
humanize_type raw_type = replace_from "_" " " 0 (strip_t raw_type)

unfoldable pub friendly_class : String → Locale → String
unfolding class_labels field
friendly_class tclass locale = elim (field tclass class_labels) [
  | none ↦ tclass
  | some n ↦ in_language locale n
]

unfoldable pub friendly_type : String → Locale → String
unfolding friendly_types field humanize_type
friendly_type type locale = elim (field type friendly_types) [
  | none ↦ humanize_type type
  | some n ↦ in_language locale n
]

unfoldable pub friendly_actor : String → Locale → String
unfolding friendly_type type_from_context
friendly_actor ctx locale = friendly_type (type_from_context ctx) locale

pub record Denial : Type 0 where
  pub scontext : String
  pub tcontext : String
  pub tclass : String
  pub perms : List String

-- `perms.join(", ")`.
unfoldable pub join_perms : List String → String
join_perms [] = ""
join_perms (p ∷ []) = p
join_perms (p ∷ q ∷ perms) = p ++ (", " ++ join_perms (q ∷ perms))

-- The sentence of each language around its four parts.
unfoldable pub sentence : Locale → String → String → String → String → String
sentence en actor target_class target_type perms =
    actor
    ++ (" was blocked trying to access "
        ++ (target_class
            ++ (" of type \"" ++ (target_type ++ ("\" (permissions: " ++ (perms ++ ")."))))))
sentence es actor target_class target_type perms =
    actor
    ++ (" fue bloqueado al intentar acceder a "
        ++ (target_class
            ++ (" de tipo «" ++ (target_type ++ ("» (permisos: " ++ (perms ++ ")."))))))
sentence fr actor target_class target_type perms =
    actor
    ++ (" a été bloqué en tentant d'accéder à "
        ++ (target_class
            ++ (" de type « " ++ (target_type ++ (" » (permissions : " ++ (perms ++ ")."))))))

module _ (upper : Char → String) where
  unfoldable pub capitalize : String → String
  capitalize String.[] = String.[]
  capitalize (String.◌∷◌ c s) = upper c ++ s

  unfoldable pub explain_denial : Denial → Locale → String
  unfolding capitalize friendly_actor friendly_class humanize_type type_from_context join_perms
      sentence
  explain_denial d locale =
      sentence locale (capitalize (friendly_actor d.scontext locale))
        (friendly_class d.tclass locale) (humanize_type (type_from_context d.tcontext))
        (join_perms d.perms)
