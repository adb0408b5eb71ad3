-- ===== src/Access/Tests.antt =====
-- Tests of the access model, and its theorems at concrete inputs.
use loon_site.Prelude.{
  ◌≡◌, ◌≢◌, ◌↔◌, refl, String, true, false, Option, none, some, [], ◌++◌, ◌==◌, string_eq, eq_iff,
  if◌then◌else◌,
}
use loon_site.Prelude.Bytes.{codes}
use loon_site.Access.{
  Modes, ModeInfo, initial_modes, registration_mode, browsing_mode, load_access_settings,
  save_access_settings, browsing_gate,
}
use loon_site.Access.Saving.{load-save}
use loon_site.Access.Gate.{IsOpen, gate_refused_iff}

-- One plugin, with a mode of its own.
abbrev by_interview : ModeInfo
by_interview = record {
  key = "interview";
  label = "Interview";
  allows_signup = true;
  requires_invite = false;
}

abbrev plugins : String → Option ModeInfo
plugins s = if s == "interview" then some by_interview else none

invite_named : ◌≢◌ {A = String} "invite" ""
invite_named same = let test = (eq_iff "invite" "").1 same in cc

load-save_example :
    let after = (save_access_settings plugins true true "invite" "members" [] initial_modes).0 in
    (load_access_settings true true after.0 initial_modes ≡ (after.1, true))
    × (registration_mode after.1 ≡ "invite")
    × (browsing_mode after.1 ≡ "members")
load-save_example =
    load-save plugins true true "invite" "members" [] initial_modes initial_modes invite_named
      (unfold save_access_settings in refl)

abbrev interviewing : Modes
interviewing = record { reg_mode = "interview"; browse_mode = "members" }

gate_refused_iff_example :
    (((browsing_gate (λ s. s) "members" (codes "/t/1") (codes "/t/1?p=2") false).0 ≡ false)
      ↔ ((◌≡◌ {A = String} "members" "members") × (false ≡ false) × ¬ (IsOpen (codes "/t/1"))))
    × ((browsing_gate (λ s. s) "members" (codes "/t/1") (codes "/t/1?p=2") false).1 ≡ (
        if (browsing_gate (λ s. s) "members" (codes "/t/1") (codes "/t/1?p=2") false).0
        then []
        else codes "/login?next=" ++ codes "/t/1?p=2"))
gate_refused_iff_example =
    gate_refused_iff (λ s. s) "members" (codes "/t/1") (codes "/t/1?p=2") false
