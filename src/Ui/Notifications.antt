-- ===== src/Ui/Notifications.antt =====
-- lumo_protocol_push_notification of compositor/src/protocol/protocol_setters.c: the store holds the
-- last eight notifications.
use lumo_compositor.Base.{
  ℕ, zero, suc, ◌+◌, ◌-◌, ◌≤◌, ◌≡◌, refl, ap, sym, ◌∙◌, List, [], ◌∷◌, ◌++◌, if◌then◌else◌, arith,
  leb, leb→le, length, drop, length-append, map, append_assoc, append-nil, Bool-cases, inl, inr,
}
use lumo_compositor.CString.{Bytes, snprintf_text}
use lumo_compositor.Ui.{Ui, Notification, broadcast, mark_layers_dirty}

abbrev pub notification_slots : ℕ
notification_slots = 8

-- The text is cut to the slot's 128 bytes; with all slots full the oldest is shifted out.
unfoldable pub push_notification : Bytes → ℕ → Ui → Ui
push_notification text time ui =
    let kept =
      if leb notification_slots (length ui.notifications)
      then drop 1 ui.notifications
      else ui.notifications in
    let new : Notification = record { text = snprintf_text 128 text; time = time } in
    mark_layers_dirty (broadcast (record ui { notifications = kept ++ new ∷ [] }))

-- Notifications pushed one after the other, each a text with its time.
abbrev pub push_all : List Notification → Ui → Ui
push_all [] ui = ui
push_all (n ∷ ns) ui = push_all ns (push_notification n.text n.time ui)

abbrev pub stored : Notification → Notification
stored n = record n { text = snprintf_text 128 n.text }

-- The last eight items.
abbrev pub last_slots : List Notification → List Notification
last_slots ns = drop (length ns - notification_slots) ns

drop-append :
    (k : ℕ) (xs ys : List Notification) → k ≤ length xs → drop k (xs ++ ys) ≡ drop k xs ++ ys
drop-append zero xs ys h = refl
drop-append (suc k) [] ys h = elim h [ ]
drop-append (suc k) (x ∷ xs) ys h = drop-append k xs ys (omega arith)

drop-drop_one : (k : ℕ) (xs : List Notification) → drop 1 (drop k xs) ≡ drop (suc k) xs
drop-drop_one zero xs = refl
drop-drop_one (suc k) [] = refl
drop-drop_one (suc k) (x ∷ xs) = drop-drop_one k xs

pub length-drop : (k : ℕ) (xs : List Notification) → length (drop k xs) ≡ length xs - k
length-drop zero xs = omega arith
length-drop (suc k) [] = omega arith
length-drop (suc k) (x ∷ xs) = omega (arith, length-drop k xs)

push-last_slots :
    (before : List Notification) (text : Bytes) (time : ℕ) (ui : Ui)
    → ui.notifications ≡ last_slots before
    → (push_notification text time ui).notifications
      ≡ last_slots (before ++ stored (record { text = text; time = time }) ∷ [])
unfolding push_notification
push-last_slots before text time ui e =
    elim (Bool-cases (leb notification_slots (length ui.notifications))) [
      | inl full ↦
          let cut : length (before ++ new ∷ []) - 8 ≡ suc (length before - 8) =
            omega (arith, leb→le _ _ full, same_length, shorter, longer) in
          rw full (
            ap (λ (ns : List Notification). drop 1 ns ++ new ∷ []) e
            ∙ rw (drop-drop_one (length before - 8) before, cut)
                (sym (
                  drop-append (suc (length before - 8)) before (new ∷ [])
                    (omega (arith, leb→le _ _ full, same_length, shorter)))))
      | inr free ↦
          let few : length before - 8 ≡ 0 = ground (arith, same_length, shorter) in
          let cut : length (before ++ new ∷ []) - 8 ≡ 0 =
            ground (arith, same_length, shorter, longer) in
          rw free (ap (λ (ns : List Notification). ns ++ new ∷ []) e ∙ rw (few, cut))
    ]
  where
    new : Notification
    new = stored (record { text = text; time = time })

    same_length : length ui.notifications ≡ length (last_slots before)
    same_length = ap (λ (ns : List Notification). length ns) e

    shorter : length (last_slots before) ≡ length before - (length before - 8)
    shorter = length-drop (length before - 8) before

    longer : length (before ++ new ∷ []) ≡ length before + 1
    longer = length-append before (new ∷ [])

-- However many notifications are pushed, the store holds the last eight of them, oldest first, each
-- cut to 127 bytes.
pub push_all-last_slots :
    (before pushed : List Notification) (ui : Ui)
    → ui.notifications ≡ last_slots before
    → (push_all pushed ui).notifications ≡ last_slots (before ++ map stored pushed)
push_all-last_slots before [] ui e = e ∙ rw append-nil
push_all-last_slots before (n ∷ ns) ui e =
    push_all-last_slots (before ++ stored n ∷ []) ns (push_notification n.text n.time ui)
      (push-last_slots before n.text n.time ui e)
    ∙ rw (append_assoc before (stored n ∷ []) (map stored ns))
