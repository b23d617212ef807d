-- ===== src/Layout/NameLaws.antt =====
-- The names of compositor/src/shell/shell_ui.c are read back.
use lumo_compositor.Base.{◌↔◌, some, ◌≡◌, refl, ap, ◌∙◌, arith}
use lumo_compositor.CString.{Bytes, codes, str_eq}
use lumo_compositor.CString.Equality.{str_eq_iff}
use lumo_compositor.Layout.Modes.{
  TouchPhase, no_phase, down, motion, up, cancel, touch_phase_name, touch_phase_parse, TouchTarget,
  no_touch_target, hitbox, surface, touch_target_name, touch_target_parse,
}

touch_phase_parse-name :
    (phase : TouchPhase) → touch_phase_parse (touch_phase_name phase) ≡ some phase
unfolding touch_phase_parse touch_phase_name str_eq
touch_phase_parse-name no_phase = refl
touch_phase_parse-name down = refl
touch_phase_parse-name motion = refl
touch_phase_parse-name up = refl
touch_phase_parse-name cancel = refl

phase_parsed :
    (value : Bytes) (phase : TouchPhase)
    → touch_phase_parse value ≡ some phase
    → value ≡ touch_phase_name phase
unfolding touch_phase_parse touch_phase_name
phase_parsed value phase h = ground (
  arith,
  str_eq_iff value (codes "down"),
  str_eq_iff value (codes "motion"),
  str_eq_iff value (codes "up"),
  str_eq_iff value (codes "cancel"),
  str_eq_iff value (codes "none"),
)

-- A touch phase is read from its name, and from nothing else.
pub touch_phase_parse_iff :
    (value : Bytes) (phase : TouchPhase)
    → (touch_phase_parse value ≡ some phase) ↔ (value ≡ touch_phase_name phase)
touch_phase_parse_iff value phase =
    (phase_parsed value phase, λ h. ap touch_phase_parse h ∙ touch_phase_parse-name phase)

touch_target_parse-name :
    (target : TouchTarget) → touch_target_parse (touch_target_name target) ≡ some target
unfolding touch_target_parse touch_target_name str_eq
touch_target_parse-name no_touch_target = refl
touch_target_parse-name hitbox = refl
touch_target_parse-name surface = refl

target_parsed :
    (value : Bytes) (target : TouchTarget)
    → touch_target_parse value ≡ some target
    → value ≡ touch_target_name target
unfolding touch_target_parse touch_target_name
target_parsed value target h = ground (
  arith,
  str_eq_iff value (codes "hitbox"),
  str_eq_iff value (codes "surface"),
  str_eq_iff value (codes "none"),
)

-- The target of a touch is read from its name, and from nothing else.
pub touch_target_parse_iff :
    (value : Bytes) (target : TouchTarget)
    → (touch_target_parse value ≡ some target) ↔ (value ≡ touch_target_name target)
touch_target_parse_iff value target =
    (target_parsed value target, λ h. ap touch_target_parse h ∙ touch_target_parse-name target)
