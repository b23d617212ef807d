-- ===== src/Bridge/Clients.antt =====
-- The clients of the bridge and the broadcast to all of them, lumo_shell_bridge_broadcast_state and
-- lumo_shell_bridge_send_state_snapshot of compositor/src/shell/shell_bridge.c. A client's socket answers as its
-- list says, which is long enough for the write to end.
use mathlib.Core.Path.{subst}
use lumo_compositor.Base.{
  ℕ, Bool, true, false, List, [], ◌∷◌, ◌++◌, Option, none, some, All, ◌≡◌, refl, sym, ap, ◌∙◌,
  if◌then◌else◌,
}
use lumo_compositor.CString.{Bytes}
use lumo_compositor.Frame.{Frame}
use lumo_compositor.Stream.{feed, fresh}
use lumo_compositor.Bridge.{Shell, broadcast_text, snapshot_text}
use lumo_compositor.Bridge.Strings.{IsShell}
use lumo_compositor.Bridge.Delivery.{ShowsUi, broadcast_text-delivered}
use lumo_compositor.Bridge.Writing.{SendAnswer, write_all, write_all-prefix}

pub record Client : Type 0 where
  pub fd : ℕ
  -- what the socket will answer, and what it has taken
  pub answers : List SendAnswer
  pub received : Bytes

-- The part of lumo_shell_state that a broadcast changes.
pub record Clients : Type 0 where
  pub clients : List Client
  pub broadcast_pending : Bool

abbrev succeeded : Option Bool → Bool
succeeded none = false
succeeded (some answer) = answer

abbrev pub after_write : Bytes → Client → Client
after_write bytes c = record c { received = c.received ++ (write_all c.answers bytes).out }

-- The loop over the clients: one that cannot be written is removed.
unfoldable pub write_clients : Bytes → List Client → List Client
write_clients bytes [] = []
write_clients bytes (c ∷ cs) =
    let rest = write_clients bytes cs in
    if succeeded (write_all c.answers bytes).answer then after_write bytes c ∷ rest else rest

abbrev write_text : Option Bytes → Clients → Clients
write_text none b = b
write_text (some bytes) b = record {
  clients = write_clients bytes b.clients;
  broadcast_pending = false;
}

unfoldable pub broadcast_state : Shell → Clients → Clients
unfolding write_clients
broadcast_state s b = write_text (broadcast_text s) b

abbrev pub snapshot_to : Option Bytes → Client → Client
snapshot_to none c = c
snapshot_to (some bytes) c = after_write bytes c

-- A new client is sent the state at once; whether the write succeeds is not looked at.
unfoldable pub send_state_snapshot : Shell → Client → Client
send_state_snapshot s c = snapshot_to (snapshot_text s) c

succeeded-true : (o : Option Bool) → succeeded o ≡ true → o ≡ some true
succeeded-true none h = cc
succeeded-true (some true) h = refl
succeeded-true (some false) h = cc

abbrev pub IsNew : Client → Type 0
IsNew c = c.received ≡ []

write_clients-received :
    (bytes : Bytes) (cs : List Client)
    → All IsNew cs
    → All (λ c. c.received ≡ bytes) (write_clients bytes cs)
unfolding write_clients
write_clients-received bytes [] new = tt
write_clients-received bytes (c ∷ cs) new =
    go (succeeded (write_all c.answers bytes).answer) refl (write_clients-received bytes cs new.1)
  where
    go :
        (b : Bool)
        → succeeded (write_all c.answers bytes).answer ≡ b
        → All (λ k. k.received ≡ bytes) (write_clients bytes cs)
        → All
            (λ k. k.received ≡ bytes)
            (if b then after_write bytes c ∷ write_clients bytes cs else write_clients bytes cs)
    go true h rest = (
      ap (λ t. t ++ (write_all c.answers bytes).out) new.0
          ∙ (write_all-prefix c.answers bytes).1 (succeeded-true _ h),
      rest,
    )
    go false h rest = rest

-- A client that has read one frame, which shows the state.
abbrev pub HasState : Shell → Client → Type 0
HasState s c =
    (f : Frame) × (feed fresh c.received
      ≡ record { stream = fresh; frames = f ∷ []; accepted = true })
    × ShowsUi f s.ui

states_received :
    (s : Shell) (bytes : Bytes) (cs : List Client)
    → IsShell s
    → broadcast_text s ≡ some bytes
    → All (λ c. c.received ≡ bytes) cs
    → All (HasState s) cs
states_received s bytes [] w h got = tt
states_received s bytes (c ∷ cs) w h got =
    let shown = broadcast_text-delivered s bytes w h in
    ((shown.0, ap (feed fresh) got.0 ∙ shown.1, shown.2), states_received s bytes cs w h got.1)

-- When the state of the compositor, whose strings hold no NUL, is broadcast to new clients and its
-- text fits, each client that is not removed has read one frame, which shows what the compositor
-- shows, and no broadcast is pending.
pub broadcast_state-HasState :
    (s : Shell) (b : Clients) (bytes : Bytes)
    → IsShell s
    → All IsNew b.clients
    → broadcast_text s ≡ some bytes
    → All (HasState s) (broadcast_state s b).clients
      × ((broadcast_state s b).broadcast_pending ≡ false)
unfolding broadcast_state
broadcast_state-HasState s b bytes w new h =
    let got =
      states_received s bytes (write_clients bytes b.clients) w h
        (write_clients-received bytes b.clients new) in
    subst
      (λ o.
        All (HasState s) (write_text o b).clients × ((write_text o b).broadcast_pending ≡ false))
      (sym h) (got, refl)
