-- ===== src/Config/Printing.antt =====
-- internal/settings/settings.go, lines 49 to 85: the settings that `printEnvironmentSettings` logs.
use proxmox_operator.Base.{
  ◌≡◌, refl, ap, ◌∙◌, List, [], ◌∷◌, ◌++◌, Option, none, some, Bool, false, ◌||◌, if◌then◌else◌,
  All,
}
use proxmox_operator.Base.Text.{Text, text, eq_text, is_empty}

abbrev proxmox_password : Text
proxmox_password = text "PROXMOX_PASSWORD"

abbrev proxmox_token_secret : Text
proxmox_token_secret = text "PROXMOX_TOKEN_SECRET"

abbrev pub is_secret : Text → Bool
is_secret key = eq_text key proxmox_password || eq_text key proxmox_token_secret

abbrev printed_settings : List Text
printed_settings =
    text "LOG_JSON"
    ∷ text "LOG_COLORIZE_LINE"
    ∷ text "LOG_ADD_CALLER"
    ∷ text "LOG_DISABLE_STACKTRACE"
    ∷ text "LOG_UNESCAPED_MULTILINE"
    ∷ text "LOG_LEVEL"
    ∷ text "PROXMOX_ENDPOINT"
    ∷ text "PROXMOX_USERNAME"
    ∷ text "PROXMOX_TOKEN_ID"
    ∷ text "PROXMOX_INSECURE_TLS"
    ∷ text "PROXMOX_VM_ID_START"
    ∷ text "PROXMOX_ALLOWED_NODES"
    ∷ text "PROXMOX_NODE_SELECTION"
    ∷ text "PROXMOX_DEFAULT_STORAGE"
    ∷ text "PROXMOX_DEFAULT_NETWORK"
    ∷ text "PROXMOX_NETWORK_MODEL"
    ∷ text "PROXMOX_DEFAULT_CPU_TYPE"
    ∷ text "PROXMOX_ENABLE_NUMA"
    ∷ text "PROXMOX_SCSI_CONTROLLER"
    ∷ []

-- The line for a setting with this value, which is `none` if it is not set.
abbrev setting_line : Text → Option Text → List Text
setting_line key none = []
setting_line key (some value) =
    if is_empty value
    then []
    else (key ++ b'=' ∷ (if is_secret key then text "***masked***" else value)) ∷ []

unfoldable pub setting_lines : (Text → Option Text) → List Text → List Text
setting_lines get [] = []
setting_lines get (key ∷ keys) = setting_line key (get key) ++ setting_lines get keys

-- The lines that `printEnvironmentSettings` logs, where `get` is what viper holds.
unfoldable pub print_environment_settings : (get : Text → Option Text) → List Text
print_environment_settings get = setting_lines get printed_settings

abbrev IsPublic : Text → Type 0
IsPublic key = is_secret key ≡ false

setting_lines-eq_of_All :
    (get get' : Text → Option Text) (keys : List Text)
    → ((key : Text) → is_secret key ≡ false → get key ≡ get' key)
    → All IsPublic keys
    → setting_lines get keys ≡ setting_lines get' keys
unfolding setting_lines
setting_lines-eq_of_All get get' [] h a = refl
setting_lines-eq_of_All get get' (key ∷ keys) h (p, a) =
    ap (λ v. setting_line key v ++ setting_lines get keys) (h key p)
    ∙ ap (λ l. setting_line key (get' key) ++ l) (setting_lines-eq_of_All get get' keys h a)

printed_settings-IsPublic : All IsPublic printed_settings
unfolding text eq_text
printed_settings-IsPublic = (
  refl,
  (
    refl,
    (
      refl,
      (
        refl,
        (
          refl,
          (
            refl,
            (
              refl,
              (
                refl,
                (
                  refl,
                  (
                    refl,
                    (refl, (refl, (refl, (refl, (refl, (refl, (refl, (refl, (refl, tt))))))))),
                  ),
                ),
              ),
            ),
          ),
        ),
      ),
    ),
  ),
)

-- What `printEnvironmentSettings` logs does not depend on the password or the secret of the token: from two environments that
-- agree in all other settings the same lines are logged.
pub print_environment_settings_eq :
    (get get' : Text → Option Text)
    → ((key : Text) → is_secret key ≡ false → get key ≡ get' key)
    → print_environment_settings get ≡ print_environment_settings get'
unfolding print_environment_settings
print_environment_settings_eq get get' h =
    setting_lines-eq_of_All get get' printed_settings h printed_settings-IsPublic
