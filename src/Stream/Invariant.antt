-- ===== src/Stream/Invariant.antt =====
-- Whatever bytes a client sends, the line stays inside its buffer, an open frame is well formed,
-- and only well-formed frames reach the callback.
use mathlib.Core.Path.{subst}
use lumo_compositor.Base.{
  ℕ, zero, suc, ◌<◌, ◌^◌, Bool, true, false, not, ◌&&◌, ◌≡◌, refl, Option, none, some, [], ◌∷◌,
  ◌++◌, arith, all, All, length, length-append, >>=-eq-some, some-inj, require-eq-some,
  Option-cases, if◌then◌else◌, ◌==◌, ltb, Bool-cases, inl, inr,
}
use lumo_compositor.CString.{Bytes, codes, c_str, str_eq}
use lumo_compositor.CString.Equality.{not_nul, all-not_nul-c_str}
use lumo_compositor.Frame.{
  IsFrame, frame_init, frame_add_field, frame_kind_parse, uint32_of_text, max_key_length,
}
use lumo_compositor.Frame.Text.{frame_init-IsFrame, frame_add_field-IsFrame}
use lumo_compositor.Stream.{
  Stream, Outcome, go_on, deliver, reject, Fed, carry_on, step, feed, fresh, reset, push, end_line,
  end_parse, parse_header_line, parse_field_line, parse_options, options_fuel, magic_at, kind_at,
  name_at, options_at, split_at_equals, Split, token, strip_id, IsStream,
}

uint32_of_text-lt : (text : Bytes) {n : ℕ} → uint32_of_text text ≡ some n → n < 2 ^ 32
unfolding uint32_of_text
uint32_of_text-lt text h = ground arith

parse_options-lt :
    (fuel : ℕ) (cursor : Bytes) (id : ℕ) {n : ℕ}
    → id < 2 ^ 32
    → parse_options fuel cursor id ≡ some n
    → n < 2 ^ 32
unfolding parse_options
parse_options-lt zero cursor id h e = cc
parse_options-lt (suc f) [] id h e = ground arith
parse_options-lt (suc f) (c ∷ cs) id h e = elim (Bool-cases (str_eq (token (c ∷ cs)) [])) [
  | inl skipped ↦ parse_options-lt f _ id h (rw skipped at e)
  | inr word ↦
      let (text, _, rest) = >>=-eq-some (strip_id (token (c ∷ cs))) _ (rw word at e) in
      let (value, read, later) = >>=-eq-some (uint32_of_text text) _ rest in
      parse_options-lt f _ value (uint32_of_text-lt text read) later
]

parse_header_line-IsFrame :
    (s : Stream) (line : Bytes) {t : Stream} → parse_header_line s line ≡ some t → IsFrame t.frame
unfolding parse_header_line
parse_header_line-IsFrame s line h =
    let (_, h1) = require-eq-some (str_eq (token (magic_at line)) (codes "LUMO/1")) _ h in
    let (kind, _, h2) = >>=-eq-some (frame_kind_parse (token (kind_at line))) _ h1 in
    let (_, h3) = require-eq-some (not (str_eq (token (name_at line)) [])) _ h2 in
    let (frame, made, h4) = >>=-eq-some (frame_init kind (token (name_at line)) 0) _ h3 in
    let options = options_at line in
    let (id, read, h5) = >>=-eq-some (parse_options (options_fuel options) options 0) _ h4 in
    let small = parse_options-lt (options_fuel options) options 0 (omega arith) read in
    let w = (frame_init-IsFrame kind (token (name_at line)) 0 (omega arith) made).0 in
    subst (λ (x : Stream). IsFrame x.frame) (some-inj h5)
      (record {
        name_token = w.name_token;
        id_range = small;
        field_room = w.field_room;
        each_field = w.each_field;
      })

split_at_equals-eq-some :
    (line : Bytes) {parts : Split}
    → split_at_equals line ≡ some parts
    → line ≡ parts.before ++ (b'=' ∷ parts.behind)
unfolding split_at_equals
split_at_equals-eq-some [] h = cc
split_at_equals-eq-some (c ∷ cs) h = elim (Option-cases (split_at_equals cs)) [
  | inl missing ↦ ground arith
  | inr (s, found) ↦ ground (arith, split_at_equals-eq-some cs found)
]

all-behind :
    (before behind : Bytes)
    → all not_nul (before ++ (b'=' ∷ behind)) ≡ true
    → all not_nul behind ≡ true
all-behind [] behind h = ground arith
all-behind (c ∷ before) behind h = ground (arith, all-behind before behind)

parse_field_line-IsFrame :
    (s : Stream) (line : Bytes) {t : Stream}
    → all not_nul line ≡ true
    → IsFrame s.frame
    → parse_field_line s line ≡ some t
    → IsFrame t.frame
unfolding parse_field_line
parse_field_line-IsFrame s line n w h =
    let (_, h1) = require-eq-some s.active _ h in
    let (parts, cut, h2) = >>=-eq-some (split_at_equals line) _ h1 in
    let (_, h3) =
      require-eq-some (not (str_eq parts.before []) && not (str_eq parts.behind [])) _ h2 in
    let (_, h4) = require-eq-some (ltb (length parts.before) max_key_length) _ h3 in
    let (frame, added, h5) = >>=-eq-some (frame_add_field s.frame parts.before parts.behind) _ h4 in
    let behind =
      all-behind parts.before parts.behind (rw (split_at_equals-eq-some line cut) at n) in
    subst (λ (x : Stream). IsFrame x.frame) (some-inj h5)
      (frame_add_field-IsFrame s.frame parts.before parts.behind behind w added)

-- What each outcome promises.
abbrev pub IsOutcome : Outcome → Type 0
IsOutcome (go_on t) = IsStream t
IsOutcome (deliver f t) = IsFrame f × (t ≡ fresh)
IsOutcome (reject t) = t ≡ fresh

fresh-IsStream : IsStream fresh
fresh-IsStream = record { line_room = omega arith; open_frame = λ e. cc }

end_parse-IsOutcome :
    (s : Stream) (parsed : Option Stream)
    → ((t : Stream) → parsed ≡ some t → IsFrame t.frame)
    → IsOutcome (end_parse s parsed)
unfolding reset
end_parse-IsOutcome s none w = refl
end_parse-IsOutcome s (some t) w = record { line_room = omega arith; open_frame = λ e. w t refl }

end_line-IsOutcome : (s : Stream) → IsStream s → IsOutcome (end_line s)
unfolding end_line reset
end_line-IsOutcome s w = at_line (length s.line == 0)
  where
    line : Bytes
    line = c_str s.line

    at_frame :
        (active : Bool)
        → s.active ≡ active
        → IsOutcome (
            if not active
            then end_parse s (parse_header_line s line)
            else end_parse s (parse_field_line s line))
    at_frame true e =
        end_parse-IsOutcome s (parse_field_line s line)
          (λ t. parse_field_line-IsFrame s line (all-not_nul-c_str s.line) (w.open_frame e))
    at_frame false e =
        end_parse-IsOutcome s (parse_header_line s line) (λ t. parse_header_line-IsFrame s line)

    at_end :
        (active : Bool)
        → s.active ≡ active
        → IsOutcome (if active then deliver s.frame fresh else go_on s)
    at_end true e = (w.open_frame e, refl)
    at_end false e = w

    at_line :
        (blank : Bool)
        → IsOutcome (
            if blank
            then (if s.active then deliver s.frame (reset s) else go_on s)
            else (if not s.active
                then end_parse s (parse_header_line s line)
                else end_parse s (parse_field_line s line)))
    at_line true = at_end s.active refl
    at_line false = at_frame s.active refl

pub step-IsOutcome : (s : Stream) (ch : ℕ) → IsStream s → IsOutcome (step s ch)
unfolding step push reset
step-IsOutcome s ch w = ground (arith, end_line-IsOutcome s w, length-append s.line (ch ∷ []))

-- Feeding any bytes to a stream in good order leaves it in good order, hands over well-formed
-- frames only, and resets the stream if it refuses.
pub record IsFed (r : Fed) : Type 0 where
  pub stream_order : IsStream r.stream
  pub frames_order : All IsFrame r.frames
  pub refused_reset : r.accepted ≡ false → r.stream ≡ fresh

pub feed-IsFed : (s : Stream) (cs : Bytes) → IsStream s → IsFed (feed s cs)
unfolding feed
feed-IsFed s [] w = record { stream_order = w; frames_order = tt; refused_reset = λ e. cc }
feed-IsFed s (c ∷ cs) w = go (λ t. feed-IsFed t cs) (step s c) (step-IsOutcome s c w)
  where
    go :
        ((t : Stream) → IsStream t → IsFed (feed t cs))
        → (o : Outcome) → IsOutcome o
        → IsFed (carry_on o (λ t. feed t cs))
    go ih (go_on t) v = ih t v
    go ih (deliver f t) v =
        let later = ih t (rw v.1 fresh-IsStream) in
        record {
          stream_order = later.stream_order;
          frames_order = (v.0, later.frames_order);
          refused_reset = later.refused_reset;
        }
    go ih (reject t) v = record {
      stream_order = rw v fresh-IsStream;
      frames_order = tt;
      refused_reset = λ e. v;
    }
