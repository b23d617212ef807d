-- ===== src/Bridge/Headers.antt =====
-- Adding fields leaves a frame's kind and name alone (compositor/src/shell/shell_bridge.c).
use lumo_compositor.Base.{
  List, [], ◌∷◌, some, ◌≡◌, sym, ap, ◌∙◌, inl, inr, >>=-eq-some, some-inj, arith,
}
use lumo_compositor.CString.{Bytes}
use lumo_compositor.Frame.{Frame, frame_add_field}
use lumo_compositor.Bridge.{Entry, add_entry, add_entries}
use lumo_compositor.Bridge.Entries.{entry_key, entry_value, add_entry-Added}

-- The same kind and name.
abbrev pub SameHeader : Frame → Frame → Type 0
SameHeader f g = (g.kind ≡ f.kind) × (g.name ≡ f.name)

frame_add_field-SameHeader :
    (f : Frame) (key value : Bytes) {g : Frame}
    → frame_add_field f key value ≡ some g
    → SameHeader f g
unfolding frame_add_field
frame_add_field-SameHeader f key value h = ground arith

add_entry-SameHeader : (e : Entry) (f g : Frame) → add_entry e f ≡ some g → SameHeader f g
add_entry-SameHeader e f g h = elim (add_entry-Added e f g h) [
  | inl same ↦ (ap (λ x. x.kind) same, ap (λ x. x.name) same)
  | inr added ↦ frame_add_field-SameHeader f (entry_key e) (entry_value e) added
]

pub add_entries-SameHeader :
    (es : List Entry) (f g : Frame) → add_entries es f ≡ some g → SameHeader f g
unfolding add_entries
add_entries-SameHeader [] f g h =
    (ap (λ x. x.kind) (sym (some-inj h)), ap (λ x. x.name) (sym (some-inj h)))
add_entries-SameHeader (e ∷ es) f g h =
    let more = >>=-eq-some (add_entry e f) _ h in
    let first = add_entry-SameHeader e f more.0 more.1 in
    let rest = add_entries-SameHeader es more.0 g more.2 in (rest.0 ∙ first.0, rest.1 ∙ first.1)
