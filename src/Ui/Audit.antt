-- ===== src/Ui/Audit.antt =====
-- The touch audit, compositor/src/core/touch_audit.c: the user touches eight markers in order. Which
-- marker a touch hits is an argument (`none` for no marker), since it is found with doubles, and so is
-- whether the profile could be written. A sample is its `captured` flag.
use Prim.Native.Nat.{bit_or}
use lumo_compositor.Base.{
  ℕ, zero, suc, ◌+◌, ◌-◌, ◌^◌, ◌<◌, ◌≤◌, Bool, true, false, not, ◌≡◌, refl, ◌∙◌, List, [], ◌∷◌,
  if◌then◌else◌, arith, ◌==◌, leb, Option, none, some,
}
use lumo_compositor.CString.{Bytes, snprintf_text}
use lumo_compositor.Ui.{
  Ui, Scrim, hidden, dimmed, modal, broadcast, mark_layers_dirty, set_scrim_state,
  set_launcher_visible, set_keyboard_visible, same,
}

abbrev pub audit_point_count : ℕ
audit_point_count = 8

pub record Audit : Type 0 where
  pub step : ℕ
  pub completed_mask : ℕ
  pub saved : Bool
  pub profile_name : Bytes
  pub device_name : Bytes
  pub device_vendor : ℕ
  pub device_product : ℕ
  pub captured : List Bool

pub record Session : Type 0 where
  pub ui : Ui
  pub audit : Audit

-- clear_samples
abbrev pub cleared : Audit
cleared = record {
  step = 0;
  completed_mask = 0;
  saved = false;
  profile_name = [];
  device_name = [];
  device_vendor = 0;
  device_product = 0;
  captured = false ∷ false ∷ false ∷ false ∷ false ∷ false ∷ false ∷ false ∷ [];
}

abbrev pub close_overlays : Ui → Ui
close_overlays ui =
    let closed = if ui.launcher_visible then set_launcher_visible false ui else ui in
    if closed.keyboard_visible then set_keyboard_visible false closed else closed

abbrev pub idle_scrim : Ui → Scrim
idle_scrim ui =
    if ui.launcher_visible then modal else if ui.keyboard_visible then dimmed else hidden

-- The part of set_active that is the shell's state.
unfoldable pub audit_ui : Bool → Ui → Ui
audit_ui active ui =
    let on = set_scrim_state dimmed (record (close_overlays ui) { touch_audit_active = true }) in
    let off = record ui { touch_audit_active = false } in
    if same ui.touch_audit_active active
    then ui
    else mark_layers_dirty (broadcast (if active then on else set_scrim_state (idle_scrim off) off))

unfoldable pub audit_set_active : Bool → Session → Session
audit_set_active active s = record {
  ui = audit_ui active s.ui;
  audit =
      if same s.ui.touch_audit_active active then s.audit else if active then cleared else s.audit;
}

set_captured : List Bool → ℕ → List Bool
set_captured [] i = []
set_captured (b ∷ bs) zero = true ∷ bs
set_captured (b ∷ bs) (suc i) = b ∷ set_captured bs i

-- How writing the profile ends: no path for it, a named file that could not be written, or success.
pub data Saving : Type 0 where
  no_path : Saving
  unwritten written : Bytes → Saving

abbrev save : Saving → Audit → Audit
save no_path a = a
save (unwritten name) a = record a { profile_name = name }
save (written name) a = record a { profile_name = name; saved = true }

abbrev device_field : Option Bytes → Bytes → Bytes
device_field none old = old
device_field (some name) old = snprintf_text 128 name

-- The sample, the mask, the step and the device's name. `device` is none without a device, else its
-- name or "touchscreen".
capture : ℕ → Option Bytes → Audit → Audit
unfolding set_captured
capture i device a = record a {
  captured = set_captured a.captured i;
  completed_mask = bit_or a.completed_mask (2 ^ i);
  step = a.step + 1;
  device_name = device_field device a.device_name;
}

note_hit : ℕ → Option Bytes → Saving → Session → Session
unfolding capture
note_hit i device saving s =
    let next = capture i device s.audit in
    let noted : Session = record { ui = broadcast s.ui; audit = next } in
    let finished : Session = record { ui = broadcast s.ui; audit = save saving next } in
    if not (i == s.audit.step)
    then s
    else if leb audit_point_count next.step
    then audit_set_active false finished
    else noted

unfoldable pub audit_note_touch : Option ℕ → Option Bytes → Saving → Session → Session
unfolding note_hit
audit_note_touch none device saving s = s
audit_note_touch (some i) device saving s =
    if not s.ui.touch_audit_active then s else note_hit i device saving s

-- The markers touched so far are the first `step` ones.
pub record IsAudit (a : Audit) : Type 0 where
  pub step_range : a.step ≤ audit_point_count
  pub mask_prefix : a.completed_mask ≡ 2 ^ a.step - 1

pub cleared-IsAudit : IsAudit cleared
cleared-IsAudit = omega arith

mask_table : (k : ℕ) → k < 8 → bit_or (2 ^ k - 1) (2 ^ k) ≡ 2 ^ (k + 1) - 1
mask_table zero h = refl
mask_table (suc zero) h = refl
mask_table (suc (suc zero)) h = refl
mask_table (suc (suc (suc zero))) h = refl
mask_table (suc (suc (suc (suc zero)))) h = refl
mask_table (suc (suc (suc (suc (suc zero))))) h = refl
mask_table (suc (suc (suc (suc (suc (suc zero)))))) h = refl
mask_table (suc (suc (suc (suc (suc (suc (suc zero))))))) h = refl
mask_table (suc (suc (suc (suc (suc (suc (suc (suc k)))))))) h = omega arith

-- A touch on the marker that is waited for extends the prefix; every other touch changes nothing.
pub audit_note_touch-IsAudit :
    (hit : Option ℕ) (device : Option Bytes) (saving : Saving) (s : Session)
    → (s.ui.touch_audit_active ≡ true → s.audit.step < audit_point_count)
    → IsAudit s.audit
    → IsAudit (audit_note_touch hit device saving s).audit
unfolding audit_note_touch audit_set_active
audit_note_touch-IsAudit none device saving s r w = w
audit_note_touch-IsAudit (some i) device no_path s r w = ground (arith, mask_table s.audit.step)
audit_note_touch-IsAudit (some i) device (unwritten n) s r w =
    ground (arith, mask_table s.audit.step)
audit_note_touch-IsAudit (some i) device (written n) s r w = ground (arith, mask_table s.audit.step)

-- Touches on the markers `from`, `from` + 1, … in order.
abbrev pub audit_hits : ℕ → ℕ → Option Bytes → Saving → Session → Session
audit_hits zero from device saving s = s
audit_hits (suc n) from device saving s =
    audit_hits n (from + 1) device saving (audit_note_touch (some from) device saving s)

hit_more :
    (from : ℕ) (device : Option Bytes) (saving : Saving) (s : Session)
    → from + 1 < audit_point_count
    → s.ui.touch_audit_active ≡ true
    → s.audit.step ≡ from
    → let t = audit_note_touch (some from) device saving s in
      (t.ui.touch_audit_active ≡ true) × (t.audit.step ≡ from + 1)
unfolding audit_note_touch
hit_more from device saving s h a e = ground arith

hit_last :
    (device : Option Bytes) (saving : Saving) (s : Session)
    → s.ui.touch_audit_active ≡ true
    → s.audit.step ≡ 7
    → let t = audit_note_touch (some 7) device saving s in
      (t.ui.touch_audit_active ≡ false) × (t.audit.step ≡ 8)
unfolding audit_note_touch audit_set_active audit_ui set_scrim_state
hit_last device no_path s a e = ground arith
hit_last device (unwritten n) s a e = ground arith
hit_last device (written n) s a e = ground arith

-- An active audit that waits for marker `from` ends once the remaining markers are touched in order:
-- it is inactive, and all eight bits of the mask are set.
pub audit_hits_complete :
    (n from : ℕ) (device : Option Bytes) (saving : Saving) (s : Session)
    → suc n + from ≡ audit_point_count
    → s.ui.touch_audit_active ≡ true
    → s.audit.step ≡ from
    → IsAudit s.audit
    → let t = audit_hits (suc n) from device saving s in
      (t.ui.touch_audit_active ≡ false) × (t.audit.completed_mask ≡ 255)
audit_hits_complete zero from device saving s n_eq a e w =
    let at_seven : from ≡ 7 = omega arith in
    let (ended, step_8) = hit_last device saving s a (e ∙ at_seven) in
    let kept = audit_note_touch-IsAudit (some 7) device saving s (λ _. omega arith) w in
    rw at_seven (ended, kept.mask_prefix ∙ rw step_8)
audit_hits_complete (suc n) from device saving s n_eq a e w =
    let t = audit_note_touch (some from) device saving s in
    let (a', e') = hit_more from device saving s (omega arith) a e in
    audit_hits_complete n (from + 1) device saving t (omega arith) a' e'
      (audit_note_touch-IsAudit (some from) device saving s (λ _. omega arith) w)
