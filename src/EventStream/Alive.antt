-- ===== src/EventStream/Alive.antt =====
-- What keeps the push connection alive, and that the calls and the ends of token fetches leave it so.
use homebridge_myalarmcom.Common.{
  ℕ, ◌+◌, ◌≡◌, ◌⊎◌, inl, inr, refl, ap, Bool, true, false, not, ◌&&◌, ◌||◌, Option, none, some,
  List, [], ◌∷◌, arith, ◌==◌, ==_refl, if◌then◌else◌,
}
use homebridge_myalarmcom.Retry.{Fraction}
use homebridge_myalarmcom.EventStream.{
  closed, Socket, ConnectAttempt, EventStream, is_connected, is_timer, is_refresh, dispose_socket,
  dispose_candidate, schedule_reconnect, schedule_refresh_retry, handle_close, dispose_socket_in,
  note_disconnect, give_up, schedule_recovery,
}
use homebridge_myalarmcom.EventStream.Steps.{
  begin_attempt, connect, is_superseded, open_socket, is_abandoned, token_arrives, token_fails,
  token_unusable, open_throws,
}

-- A socket that will still report: its peer has not closed it.
abbrev pub is_live : Option Socket → Bool
is_live none = false
is_live (some s) = elim s.ready_state [ closed ↦ false | _ ↦ true ]

-- A fetch whose attempt, on arriving, opens a socket or schedules the next attempt.
abbrev pub is_driving : ℕ → ConnectAttempt → Bool
is_driving generation a = not a.should_defer_dispose && (a.generation == generation)

unfoldable pub has_driving : ℕ → List ConnectAttempt → Bool
has_driving generation [] = false
has_driving generation (a ∷ as_) = is_driving generation a || has_driving generation as_

abbrev pub is_alive : EventStream → Bool
is_alive s =
    s.is_stopped
    || (is_live s.socket
        || (is_timer s.reconnect_timer
            || (s.recovery_timer || has_driving s.connect_generation s.fetches)))

pub dispose_socket_lem :
    (s : EventStream) (now : ℕ)
    → dispose_socket s now
      ≡ record s { socket = none; disconnected_at = (dispose_socket s now).disconnected_at }
unfolding dispose_socket dispose_socket_in note_disconnect
dispose_socket_lem s now = go s.socket refl
  where
    go :
        (o : Option Socket)
        → s.socket ≡ o
        → dispose_socket_in o s now ≡ record s {
          socket = none;
          disconnected_at = (dispose_socket_in o s now).disconnected_at;
        }
    go none e = ap (λ o. record s { socket = o }) e
    go (some k) e = ground arith

pub schedule_reconnect-alive :
    (s : EventStream) (random : Fraction) → is_alive (schedule_reconnect s random) ≡ true
unfolding schedule_reconnect give_up schedule_recovery
schedule_reconnect-alive s random = ground arith

pub handle_close-alive :
    (s : EventStream) (now : ℕ) (random : Fraction) → is_alive (handle_close s now random) ≡ true
unfolding handle_close schedule_reconnect give_up schedule_recovery note_disconnect
handle_close-alive s now random = ground arith

-- The attempt drives the stream, unless the live socket does.
attempt-alive :
    (s : EventStream) (defer : Bool)
    → is_live s.socket ≡ true ⊎ defer ≡ false
    → is_alive (record s {
      is_connecting = true;
      fetches =
          record { should_defer_dispose = defer; generation = s.connect_generation } ∷ s.fetches;
    })
      ≡ true
unfolding has_driving
attempt-alive s defer (inl h) = ground arith
attempt-alive s defer (inr h) = ground (arith, ==_refl s.connect_generation)

pub connect-alive : (s : EventStream) (now : ℕ) → is_alive (connect s now) ≡ true
unfolding connect begin_attempt
connect-alive s now = go s.is_stopped refl (is_refresh s.connect_reason && is_connected s) refl
  where
    freed : EventStream
    freed =
        dispose_socket
          (dispose_candidate (record s { connect_generation = s.connect_generation + 1 })) now

    go :
        (stopped : Bool)
        → s.is_stopped ≡ stopped
        → (b : Bool) → is_refresh s.connect_reason && is_connected s ≡ b
        → is_alive (
            if stopped
            then s
            else let owned = if b then s else freed in
              record owned {
                is_connecting = true;
                fetches =
                    record { should_defer_dispose = b; generation = owned.connect_generation }
                    ∷ owned.fetches;
              })
          ≡ true
    go true e b h = ground arith
    go false e true h = attempt-alive s true (inl (ground arith))
    go false e false h = attempt-alive freed false (inr refl)

pub schedule_refresh_retry-alive :
    (s : EventStream) → is_alive s ≡ true → is_alive (schedule_refresh_retry s) ≡ true
unfolding schedule_refresh_retry
schedule_refresh_retry-alive s h = ground arith

open_socket-alive :
    (s : EventStream) (a : ConnectAttempt) (now : ℕ) → is_alive (open_socket s a now) ≡ true
unfolding open_socket dispose_candidate
open_socket-alive s a now = ground arith

-- An attempt that ends keeps the stream alive, itself or by what else there is.
pub token_arrives-alive :
    (s : EventStream) (a : ConnectAttempt) (now : ℕ)
    → (is_driving s.connect_generation a || is_alive s) ≡ true
    → is_alive (token_arrives s a now) ≡ true
unfolding token_arrives
token_arrives-alive s a now h = ground (arith, open_socket-alive s a now)

pub token_fails-alive :
    (s : EventStream) (a : ConnectAttempt) (random : Fraction)
    → (is_driving s.connect_generation a || is_alive s) ≡ true
    → is_alive (token_fails s a random) ≡ true
unfolding token_fails
token_fails-alive s a random h = ground (
  arith,
  schedule_refresh_retry-alive (record s { is_connecting = false }),
  schedule_reconnect-alive (record s { is_connecting = false }) random,
)

dispose_socket-connect_generation :
    (s : EventStream) (now : ℕ) → (dispose_socket s now).connect_generation ≡ s.connect_generation
dispose_socket-connect_generation s now = ap (λ q. q.connect_generation) (dispose_socket_lem s now)

open_throws-alive :
    (s : EventStream) (a : ConnectAttempt) (now : ℕ) (random : Fraction)
    → is_superseded a s ≡ false
    → is_abandoned a s ≡ false
    → is_alive (open_throws s a now random) ≡ true
unfolding open_throws dispose_candidate
open_throws-alive s a now random h kept = ground (
  arith,
  token_fails-alive (dispose_candidate (record s { connect_generation = s.connect_generation + 1 }))
      a random,
  token_fails-alive (dispose_socket (dispose_candidate s) now) a random,
  dispose_socket-connect_generation (dispose_candidate s) now,
)

pub token_unusable-alive :
    (s : EventStream) (a : ConnectAttempt) (now : ℕ) (random : Fraction)
    → (is_driving s.connect_generation a || is_alive s) ≡ true
    → is_alive (token_unusable s a now random) ≡ true
unfolding token_unusable
token_unusable-alive s a now random h = ground (arith, open_throws-alive s a now random)
