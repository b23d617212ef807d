-- ===== src/Tests/Protocol.antt =====
-- The shell protocol on concrete frames and bytes.
use lumo_compositor.Base.{true, false, ◌≡◌, refl, [], ◌∷◌, ◌++◌, none, some, arith}
use lumo_compositor.CString.{Bytes, codes, c_str, str_eq, decimal, strtoul}
use lumo_compositor.Frame.{
  Frame, event, request, zero_frame, frame_init, frame_add_field, frame_add_bool, frame_add_u32,
  frame_get, frame_format, frame_kind_name, frame_kind_parse, append, append_fields, IsFrame,
  copy_token, copy_value, uint32_of_text,
}
use lumo_compositor.Frame.Text.{frame_kind_parse-frame_kind_name}
use lumo_compositor.Frame.Size.{frame_text, fits, frame_format-fits}
use lumo_compositor.Stream.{
  fresh, feed, step, end_line, push, reset, parse_header_line, parse_field_line, parse_options,
  skip_spaces, token, after_token, strip_id,
}
use lumo_compositor.Stream.Invariant.{IsFed, feed-IsFed}
use lumo_compositor.Stream.Chunks.{feed_then, feed-append}
use lumo_compositor.Stream.Fuel.{Options, parse_options-Options}
use lumo_compositor.Stream.RoundTrip.{frames_text, feed-frame_format, feed-frames_text}

abbrev shown : Frame
shown = record {
  kind = event;
  name = codes "state";
  id = 7;
  fields = record { key = codes "launcher_visible"; value = codes "1" } ∷ [];
}

abbrev empty_request : Frame
empty_request = record { kind = request; name = codes "register_client"; id = 1; fields = [] }

shown-IsFrame : IsFrame shown
shown-IsFrame = ground arith

empty_request-IsFrame : IsFrame empty_request
empty_request-IsFrame = ground arith

abbrev shown_text : Bytes
shown_text = codes "LUMO/1 event state id=7\nlauncher_visible=1\n\n"

format_runs : frame_format shown 1024 ≡ some shown_text
unfolding frame_format append append_fields frame_kind_name decimal
format_runs = refl

-- 44 bytes and the NUL need a buffer of 45.
format_refuses : frame_format shown 44 ≡ none
unfolding frame_format append append_fields frame_kind_name decimal
format_refuses = refl

feed_runs :
    feed fresh (codes "LUMO/1   request  ping id=3 \r\nk=a=b c\n\nLUMO/1 event e\n") ≡ record {
      stream = record { active = true; line = []; frame = record zero_frame { name = codes "e" } };
      frames =
          record {
            kind = request;
            name = codes "ping";
            id = 3;
            fields = record { key = codes "k"; value = codes "a=b c" } ∷ [];
          }
          ∷ [];
      accepted = true;
    }
unfolding feed step end_line push reset parse_header_line parse_field_line parse_options skip_spaces
    token after_token strip_id frame_init frame_add_field frame_kind_parse copy_token copy_value
    uint32_of_text strtoul c_str str_eq
feed_runs = refl

feed_refuses :
    feed fresh (codes "LUMO/2 event e\nrest")
    ≡ record { stream = fresh; frames = []; accepted = false }
unfolding feed step end_line push reset parse_header_line skip_spaces token after_token c_str str_eq
feed_refuses = refl

-- strtoul takes a sign: 2^64 - 1 behind a minus is 1.
negative_id : uint32_of_text (codes "-18446744073709551615") ≡ some 1
unfolding uint32_of_text strtoul str_eq
negative_id = refl

feed-frame_format_example :
    feed fresh shown_text ≡ record { stream = fresh; frames = shown ∷ []; accepted = true }
feed-frame_format_example = feed-frame_format shown 1024 shown-IsFrame format_runs

feed-frames_text_example :
    feed fresh (frames_text (shown ∷ empty_request ∷ []))
    ≡ record { stream = fresh; frames = shown ∷ empty_request ∷ []; accepted = true }
feed-frames_text_example =
    feed-frames_text (shown ∷ empty_request ∷ []) (shown-IsFrame, (empty_request-IsFrame, tt))

feed-IsFed_example : IsFed (feed fresh (codes "LUMO/1 event e id=x\n"))
feed-IsFed_example =
    feed-IsFed fresh (codes "LUMO/1 event e id=x\n")
      (record { line_room = omega arith; open_frame = λ e. cc })

feed-append_example :
    feed fresh (codes "LUMO/1 ev" ++ codes "ent e\n\n")
    ≡ feed_then (feed fresh (codes "LUMO/1 ev")) (codes "ent e\n\n")
feed-append_example = feed-append fresh (codes "LUMO/1 ev") (codes "ent e\n\n")

frame_format-fits_example : frame_format shown 44 ≡ fits 44 (frame_text shown [])
frame_format-fits_example = frame_format-fits shown 44

abbrev widened : Frame
widened = record shown {
  fields = shown.fields ++ record { key = codes "w"; value = codes "720" } ∷ [];
}

widened_made : frame_add_u32 shown (codes "w") 720 ≡ some widened
unfolding frame_add_u32 frame_add_field copy_token copy_value decimal
widened_made = refl

widened_field : frame_add_field shown (codes "w") (codes "720") ≡ some widened
unfolding frame_add_field copy_token copy_value
widened_field = refl

width_free : frame_get shown (codes "w") ≡ none
unfolding frame_get str_eq
width_free = refl

abbrev flagged : Frame
flagged = record shown {
  fields = shown.fields ++ record { key = codes "w"; value = codes "0" } ∷ [];
}

flagged_made : frame_add_bool shown (codes "w") false ≡ some flagged
unfolding frame_add_bool frame_add_field copy_token copy_value
flagged_made = refl

frame_kind_parse-frame_kind_name_example : frame_kind_parse (frame_kind_name request) ≡ some request
frame_kind_parse-frame_kind_name_example = frame_kind_parse-frame_kind_name request

parse_options-Options_example :
    Options (codes "id=4 id=5") 0 (parse_options 10 (codes "id=4 id=5") 0)
parse_options-Options_example = parse_options-Options 10 (codes "id=4 id=5") 0 (omega arith)
