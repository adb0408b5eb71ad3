-- ===== src/Access/Saving.antt =====
-- Saving the modes and reading them back at the next start, and what a mode lets the register page
-- do.
use loon_site.Prelude.{
  ◌≡◌, ◌≢◌, ◌⊎◌, ◌↔◌, refl, sym, ap, ◌∙◌, Bool, true, false, ◌||◌, not, Option, some, String, arith,
  ◌==◌, string_eq, eq_iff, lookup, insert, lookup-insert, Bool-cases, Option-cases, inl, inr,
  beq_refl, beq_ne,
}
use loon_site.Access.{
  Modes, Settings, ModeInfo, saved, not_supported, reg_open, reg_invite, reg_closed,
  setting_registration, setting_browsing, registration_mode, browsing_mode, get_setting,
  load_access_settings, valid_reg, valid_browse, save_access_settings, registration_mode_info,
}

valid_browse-filled : (s : String) → valid_browse s ≡ true → (s == "") ≡ false
unfolding valid_browse
valid_browse-filled s h =
    beq_ne s "" (λ empty. let w = ap valid_browse empty in let c = sym h ∙ w in cc)

differs : (a b : String) → (a == b) ≡ false → a ≢ b
differs a b h same = let test = (eq_iff a b).1 same in let c = sym test ∙ h in cc

get_setting-insert :
    (key value : String) (settings : Settings)
    → get_setting true key (insert key value settings) ≡ some value
unfolding get_setting
get_setting-insert key value settings =
    rw (lookup-insert key key value settings, beq_refl key, get_setting) refl

get_setting-insert_other :
    (key other value old : String) (settings : Settings)
    → (key == other) ≡ false
    → lookup other settings ≡ some old
    → get_setting true other (insert key value settings) ≡ some old
unfolding get_setting
get_setting-insert_other key other value old settings differ found =
    rw (lookup-insert key other value settings, differ, found, get_setting) refl

module _ (mode_by_key : String → Option ModeInfo) where
  saved_settings :
      (first second : Bool) (reg browse : String) (settings : Settings) (m : Modes)
      → (save_access_settings mode_by_key first second reg browse settings m).1 ≡ saved
      → (valid_browse browse ≡ true)
        × ((save_access_settings mode_by_key first second reg browse settings m).0 ≡ (
          insert setting_browsing browse (insert setting_registration reg settings),
          record { reg_mode = reg; browse_mode = browse },
        ))
  unfolding save_access_settings
  saved_settings false second reg browse settings m h = absurd (ground arith)
  saved_settings true false reg browse settings m h = absurd (ground arith)
  saved_settings true true reg browse settings m h =
      elim (Bool-cases (not (valid_reg mode_by_key reg) || not (valid_browse browse))) [
        | inl bad ↦ absurd (let w = rw bad at h in cc)
        | inr fine ↦ (ground arith, rw fine refl)
      ]

  -- A restart keeps the modes: what a successful save stored is what the next start loads, whatever
  -- modes the process had before. (The registration mode is not the empty text, which no built-in
  -- mode is, and both reads go through.)
  pub load-save :
      (first second : Bool) (reg browse : String) (settings : Settings) (m before : Modes)
      → reg ≢ ""
      → (save_access_settings mode_by_key first second reg browse settings m).1 ≡ saved
      → let after = (save_access_settings mode_by_key first second reg browse settings m).0 in
        (load_access_settings true true after.0 before ≡ (after.1, true))
        × (registration_mode after.1 ≡ reg)
        × (browsing_mode after.1 ≡ browse)
  unfolding load_access_settings registration_mode browsing_mode
  load-save first second reg browse settings m before named h =
      let (valid, result) = saved_settings first second reg browse settings m h in
      let filled = beq_ne reg "" named in
      let filled' = valid_browse-filled browse valid in
      let stored = insert setting_registration reg settings in
      let reads_reg =
        get_setting-insert_other setting_browsing setting_registration browse reg stored refl
          (lookup-insert setting_registration setting_registration reg settings) in
      let reads_browse = get_setting-insert setting_browsing browse stored in
      rw (result, reads_reg, reads_browse, filled, filled') (refl, refl, refl)

  -- A save that fails leaves the modes in force as they were, and one that is refused for an
  -- unknown mode leaves the table alone too; it is refused exactly when one of the two modes is
  -- unknown.
  pub save_failed_stays :
      (first second : Bool) (reg browse : String) (settings : Settings) (m : Modes)
      → let s = save_access_settings mode_by_key first second reg browse settings m in
        (s.1 ≢ saved → s.0.1 ≡ m)
        × ((s.1 ≡ not_supported)
            ↔ ((valid_reg mode_by_key reg ≡ false) ⊎ (valid_browse browse ≡ false)))
        × (s.1 ≡ not_supported → s.0.0 ≡ settings)
  unfolding save_access_settings
  save_failed_stays false second reg browse settings m = ground arith
  save_failed_stays true false reg browse settings m = ground arith
  save_failed_stays true true reg browse settings m = ground arith

  -- The register page takes an account exactly in the open and the invite-only mode, and in a mode
  -- of a plugin that says so; a stored mode that nothing implements counts as closed.
  pub allows_signup_iff :
      (m : Modes)
      → ((registration_mode_info mode_by_key m).allows_signup ≡ true) ↔ (
          (registration_mode m ≡ reg_open)
          ⊎ ((registration_mode m ≡ reg_invite)
              ⊎ ((registration_mode m ≢ reg_closed)
                  × ((info : ModeInfo) × (mode_by_key (registration_mode m) ≡ some info)
                      × (info.allows_signup ≡ true)))))
  unfolding registration_mode_info
  allows_signup_iff m =
      let mode = registration_mode m in
      elim (Bool-cases (mode == reg_open)) [
        | inl is_open ↦ (λ _. inl ((eq_iff mode reg_open).0 is_open), λ _. rw is_open refl)
        | inr not_open ↦ elim (Bool-cases (mode == reg_invite)) [
          | inl by_invite ↦ (
            λ _. inr (inl ((eq_iff mode reg_invite).0 by_invite)),
            λ _. rw (not_open, by_invite) refl,
          )
          | inr not_invite ↦ elim (Bool-cases (mode == reg_closed)) [
            | inl is_closed ↦ (
              λ h. absurd (let w = rw (not_open, not_invite, is_closed) at h in cc),
              λ h. absurd (elim h [
                | inl e ↦ differs mode reg_open not_open e
                | inr (inl e) ↦ differs mode reg_invite not_invite e
                | inr (inr (other, _)) ↦ other ((eq_iff mode reg_closed).0 is_closed)
              ]),
            )
            | inr not_closed ↦ elim (Option-cases (mode_by_key mode)) [
              | inl unknown ↦ (
                λ h. absurd (let w = rw (not_open, not_invite, not_closed, unknown) at h in cc),
                λ h. absurd (elim h [
                  | inl e ↦ differs mode reg_open not_open e
                  | inr (inl e) ↦ differs mode reg_invite not_invite e
                  | inr (inr (_, (info', known', _))) ↦ let c = sym unknown ∙ known' in cc
                ]),
              )
              | inr (info, known) ↦ (
                λ h. inr (
                    inr (
                      differs mode reg_closed not_closed,
                      (info, known, rw (not_open, not_invite, not_closed, known) at h),
                    )),
                λ h. elim h [
                  | inl e ↦ absurd (differs mode reg_open not_open e)
                  | inr (inl e) ↦ absurd (differs mode reg_invite not_invite e)
                  | inr (inr (_, (info', known', allows))) ↦
                      let same : info ≡ info' = (let c = sym known ∙ known' in cc) in
                      rw (not_open, not_invite, not_closed, known, same) allows
                ],
              )
            ]
          ]
        ]
      ]
