-- ===== src/Access.antt =====
-- web/handlers/access_web.go, with siteSettings of web/handlers/donations_web.go: who may register
-- and who may read. The modes are kept in this process and in the table site_settings, a map. What
-- the plugins register is a parameter, and so is Go's url.QueryEscape. Paths are lists of bytes.
pub mod Saving
pub mod Gate
mod Tests
use loon_site.Prelude.{
  ℕ, Bool, true, false, ◌&&◌, ◌||◌, not, Option, none, some, List, [], ◌∷◌, ◌++◌, String, ◌==◌,
  nat_eq, string_eq, if◌then◌else◌, lookup, insert,
}
use loon_site.Prelude.Bytes.{Bytes, codes, bytes_eq}

abbrev pub reg_open : String
reg_open = "open"

abbrev pub reg_invite : String
reg_invite = "invite"

abbrev pub reg_closed : String
reg_closed = "closed"

abbrev pub browse_public : String
browse_public = "public"

abbrev pub browse_members : String
browse_members = "members"

abbrev pub setting_registration : String
setting_registration = "access_registration"

abbrev pub setting_browsing : String
setting_browsing = "access_browsing"

-- `regMode` and `browseMode`
pub record Modes : Type 0 where
  pub reg_mode : String
  pub browse_mode : String

-- `init`
abbrev pub initial_modes : Modes
initial_modes = record { reg_mode = reg_open; browse_mode = browse_public }

abbrev pub Settings : Type 0
Settings = List (String × String)

-- `registrationMode`
unfoldable pub registration_mode : Modes → String
registration_mode m = if m.reg_mode == "" then reg_open else m.reg_mode

-- `browsingMode`
unfoldable pub browsing_mode : Modes → String
browsing_mode m = if m.browse_mode == "" then browse_public else m.browse_mode

-- `GetSetting`: a key that is absent reads as the empty text; none is an error.
unfoldable pub get_setting : Bool → String → Settings → Option String
get_setting false key settings = none
get_setting true key settings = elim (lookup key settings) [ none ↦ some "" | some v ↦ some v ]

-- `SetSetting`: none is an error, which leaves the table alone.
unfoldable pub set_setting : Bool → String → String → Settings → Option Settings
set_setting false key value settings = none
set_setting true key value settings = some (insert key value settings)

abbrev pub adopt_reg : String → Modes → Modes
adopt_reg v m = if v == "" then m else record m { reg_mode = v }

abbrev pub adopt_browse : String → Modes → Modes
adopt_browse v m = if v == "" then m else record m { browse_mode = v }

load_browsing : Option String → Modes → Modes × Bool
load_browsing none m = (m, false)
load_browsing (some v) m = (adopt_browse v m, true)

load_registration : Option String → Option String → Modes → Modes × Bool
unfolding load_browsing
load_registration none browsing m = (m, false)
load_registration (some v) browsing m = load_browsing browsing (adopt_reg v m)

-- `loadAccessSettings`, and whether it went through. Each read may fail.
unfoldable pub load_access_settings : Bool → Bool → Settings → Modes → Modes × Bool
unfolding load_registration get_setting
load_access_settings first second settings m =
    load_registration (get_setting first setting_registration settings)
      (get_setting second setting_browsing settings) m

-- What a plugin says of its mode.
pub record ModeInfo : Type 0 where
  pub key : String
  pub label : String
  pub allows_signup : Bool
  pub requires_invite : Bool

abbrev pub is_some : {A : Type 0} → Option A → Bool
is_some none = false
is_some (some a) = true

-- `validBrowse`
unfoldable pub valid_browse : String → Bool
valid_browse s = s == browse_public || s == browse_members

-- What a save reports.
pub data Saved : Type 0 where
  saved not_supported db_error : Saved

-- `mode_by_key` is `RegistrationModeByKey` at the plugins that are loaded.
module _ (mode_by_key : String → Option ModeInfo) where
  -- `validReg`
  unfoldable pub valid_reg : String → Bool
  valid_reg s =
      if s == reg_open || (s == reg_invite || s == reg_closed)
      then true
      else is_some (mode_by_key s)

  save_browsing : Bool → String → String → Settings → Modes → (Settings × Modes) × Saved
  save_browsing second reg browse settings m =
      elim (set_setting second setting_browsing browse settings) [
        | none ↦ ((settings, m), db_error)
        | some settings' ↦ ((settings', record { reg_mode = reg; browse_mode = browse }), saved)
      ]

  -- `saveAccessSettings`: the second write may fail after the first.
  unfoldable pub save_access_settings :
      Bool → Bool → String → String → Settings → Modes → (Settings × Modes) × Saved
  unfolding save_browsing valid_reg valid_browse set_setting
  save_access_settings first second reg browse settings m =
      if not (valid_reg reg) || not (valid_browse browse)
      then ((settings, m), not_supported)
      else elim (set_setting first setting_registration reg settings) [
        | none ↦ ((settings, m), db_error)
        | some settings' ↦ save_browsing second reg browse settings' m
      ]

  plugin_mode : String → Option ModeInfo → ModeInfo
  plugin_mode m (some info) = info
  plugin_mode m none = record { key = m; label = m; allows_signup = false; requires_invite = false }

  -- `registrationModeInfo`
  unfoldable pub registration_mode_info : Modes → ModeInfo
  unfolding registration_mode plugin_mode
  registration_mode_info modes =
      let m = registration_mode modes in
      if m == reg_open
      then record { key = reg_open; label = "Open"; allows_signup = true; requires_invite = false }
      else if m == reg_invite
      then record {
        key = reg_invite;
        label = "Invite only";
        allows_signup = true;
        requires_invite = true;
      }
      else if m == reg_closed
      then record {
        key = reg_closed;
        label = "Closed";
        allows_signup = false;
        requires_invite = false;
      }
      else plugin_mode m (mode_by_key m)

-- `strings.HasPrefix`
unfoldable pub has_prefix : Bytes → Bytes → Bool
has_prefix s [] = true
has_prefix [] (p ∷ prefix) = false
has_prefix (c ∷ s) (p ∷ prefix) = c == p && has_prefix s prefix

abbrev pub one_of : Bytes → List Bytes → Bool
one_of p [] = false
one_of p (d ∷ doors) = if p == d then true else one_of p doors

-- `alwaysPublic`
unfoldable pub always_public : Bytes → Bool
always_public p =
    one_of p (
      codes "/login"
      ∷ codes "/logout"
      ∷ codes "/register"
      ∷ codes "/forgot"
      ∷ codes "/reset"
      ∷ codes "/healthz"
      ∷ codes "/robots.txt"
      ∷ codes "/favicon.ico"
      ∷ [])
    || (has_prefix p (codes "/static/")
        || (p == codes "/api"
            || (has_prefix p (codes "/api/")
                || (p == codes "/rss"
                    || (has_prefix p (codes "/rss/") || has_prefix p (codes "/verify/"))))))

-- `browsingGate`: `(allow, redirectTo)`.
unfoldable pub browsing_gate : (Bytes → Bytes) → String → Bytes → Bytes → Bool → Bool × Bytes
browsing_gate query_escape mode path request_uri signed_in =
    if not (mode == browse_members) || (always_public path || signed_in)
    then (true, [])
    else (false, codes "/login?next=" ++ query_escape request_uri)
