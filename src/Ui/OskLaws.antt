-- ===== src/Ui/OskLaws.antt =====
-- What the keys of the on-screen keyboard do to the shell's state
-- (lumo_shell_bridge_commit_osk_text of compositor/src/shell/shell_bridge.c).
use lumo_compositor.Base.{ℕ, ◌+◌, ◌<◌, Bool, [], ◌∷◌, ◌++◌, ◌≡◌, ◌≢◌, refl, ap, ◌∙◌, arith, length}
use lumo_compositor.CString.{Bytes}
use lumo_compositor.Ui.{Ui}
use lumo_compositor.Ui.Invariant.{IsUi, set_keyboard_visible-IsUi, osk_toggle_page-IsUi}
use lumo_compositor.Ui.Closed.{KeepsKeys}
use lumo_compositor.Ui.OskKeeps.{commit_osk_text-keeps}
use lumo_compositor.Ui.Osk.{commit_osk_text, search_key, drop_last}

-- A call into wlroots, and the flags that the invariant does not read.
IsUi-KeepsKeys : KeepsKeys IsUi
IsUi-KeepsKeys = record {
  calls = λ e ui quiet w. record {
    scrim = w.scrim;
    keyboard = w.keyboard;
    timer_visible = w.timer_visible;
    notification_room = w.notification_room;
  };
  dirties = λ ui w. record {
    scrim = w.scrim;
    keyboard = w.keyboard;
    timer_visible = w.timer_visible;
    notification_room = w.notification_room;
  };
  typed = λ text ui w. record {
    scrim = w.scrim;
    keyboard = w.keyboard;
    timer_visible = w.timer_visible;
    notification_room = w.notification_room;
  };
  shifts = λ b ui w. record {
    scrim = w.scrim;
    keyboard = w.keyboard;
    timer_visible = w.timer_visible;
    notification_room = w.notification_room;
  };
  pages = λ ui w. osk_toggle_page-IsUi ui w;
  keyboard = λ v ui w. set_keyboard_visible-IsUi v ui w;
}

pub commit_osk_text-IsUi :
    (t k : Bool) (index : ℕ) (ui : Ui) → IsUi ui → IsUi (commit_osk_text t k index ui).ui
commit_osk_text-IsUi t k index ui w = commit_osk_text-keeps IsUi IsUi-KeepsKeys t k index ui w

drop_last-append : (query : Bytes) (c : ℕ) → drop_last (query ++ c ∷ []) ≡ query
drop_last-append [] c = refl
drop_last-append (q ∷ []) c = refl
drop_last-append (q ∷ r ∷ query) c = ap (λ t. q ∷ t) (drop_last-append (r ∷ query) c)

search_key-typed :
    (c : ℕ) (query : Bytes)
    → c ≢ 8
    → c ≢ b'\n'
    → length query + 1 < 127
    → search_key c query ≡ query ++ c ∷ []
unfolding search_key
search_key-typed c query typed not_enter room = ground arith

search_key-erase : (text : Bytes) → search_key 8 text ≡ drop_last text
unfolding search_key
search_key-erase text = refl

-- In the launcher's search, backspace takes back the character typed before it, while there is room.
pub search_key-backspace :
    (c : ℕ) (query : Bytes)
    → c ≢ 8
    → c ≢ b'\n'
    → length query + 1 < 127
    → search_key 8 (search_key c query) ≡ query
search_key-backspace c query typed not_enter room =
    ap (search_key 8) (search_key-typed c query typed not_enter room)
    ∙ search_key-erase (query ++ c ∷ [])
    ∙ drop_last-append query c
