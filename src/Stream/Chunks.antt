-- ===== src/Stream/Chunks.antt =====
-- How the bytes are cut into reads does not matter.
use lumo_compositor.Base.{Bool, true, false, ◌≡◌, refl, ap, ◌∙◌, [], ◌∷◌, ◌++◌, arith}
use lumo_compositor.CString.{Bytes}
use lumo_compositor.Frame.{Frame}
use lumo_compositor.Stream.{
  Stream, Outcome, go_on, deliver, reject, Fed, also, carry_on, step, feed,
}

-- A second read, if the first was accepted.
abbrev pub continue_if : Bool → Fed → Fed → Fed
continue_if true r q = record q { frames = r.frames ++ q.frames }
continue_if false r q = r

abbrev pub feed_then : Fed → Bytes → Fed
feed_then r cs = continue_if r.accepted r (feed r.stream cs)

also-feed_then :
    (f : Frame) (r : Fed) (cs : Bytes) → also f (feed_then r cs) ≡ feed_then (also f r) cs
also-feed_then f r cs = ground arith

-- Feeding two chunks one after the other, and stopping where the first is refused, is feeding both
-- at once: the same frames, the same stream and the same answer.
pub feed-append : (s : Stream) (a b : Bytes) → feed s (a ++ b) ≡ feed_then (feed s a) b
unfolding feed
feed-append s [] b = refl
feed-append s (c ∷ a) b = go (λ t. feed-append t a b) (step s c)
  where
    go :
        ((t : Stream) → feed t (a ++ b) ≡ feed_then (feed t a) b)
        → (o : Outcome)
        → carry_on o (λ t. feed t (a ++ b)) ≡ feed_then (carry_on o (λ t. feed t a)) b
    go ih (go_on t) = ih t
    go ih (deliver f t) = ap (also f) (ih t) ∙ also-feed_then f (feed t a) b
    go ih (reject t) = refl
