-- ===== src/Protocol/Loop/Invariant.antt =====
-- What every case of a loop keeps, the loop keeps.
use security_addon.Base.{ℕ, zero, suc, Bool, true, false, Option, List, Bytes}
use security_addon.Status.{Result, ok, err, fault}
use security_addon.Transport.{Arrival}
use security_addon.Protocol.{Platform, Session, Action}
use security_addon.Protocol.Json.{CommandType, get_command_type, read_payload}
use security_addon.Protocol.Keeps.{Keeps, after-Keeps}
use security_addon.Protocol.Loop.{on_message, go_on, go_round, message_loop}

module _ {ℓ} {L : Type 0} (P : Session → Type ℓ) (p : Platform) (unread : Session → Session)
    (handle : Bytes → CommandType → L → Action (Bool × L))
    (unread-P : (s : Session) → P s → P (unread s))
    (handle-P : (buf : Bytes) (cmd : CommandType) (l : L) → Keeps P (handle buf cmd l)) where
  go_on-Keeps :
      (next : List Arrival → L → Session → Result L × Session × List Arrival)
      → ((es : List Arrival) (l : L) (s : Session) → P s → P (next es l s).1)
      → (es : List Arrival) (r : Result (Bool × L) × Session) → P r.1
      → P (go_on p unread handle next es r).1
  unfolding go_on
  go_on-Keeps next kn es (ok (true, l), s) ps = ps
  go_on-Keeps next kn es (ok (false, l), s) ps = kn es l s ps
  go_on-Keeps next kn es (err e, s) ps = ps
  go_on-Keeps next kn es (fault, s) ps = ps

  go_round-Keeps :
      (next : List Arrival → L → Session → Result L × Session × List Arrival)
      → ((es : List Arrival) (l : L) (s : Session) → P s → P (next es l s).1)
      → (r : Result (Bytes × Option Bytes) × List Arrival) (l : L) (s : Session) → P s
      → P (go_round p unread handle next r l s).1
  unfolding go_round on_message
  go_round-Keeps next kn (ok (buf, command), es) l s ps = go_on-Keeps next kn es _ (
      after-Keeps P (λ cmd. handle buf cmd l) (get_command_type command, s) ps
        (λ cmd _. handle-P buf cmd l))
  go_round-Keeps next kn (err e, es) l s ps = unread-P s ps
  go_round-Keeps next kn (fault, es) l s ps = ps

  pub message_loop-Keeps :
      (fuel : ℕ) (es : List Arrival) (l : L) (s : Session)
      → P s
      → P (message_loop p unread handle fuel es l s).1
  unfolding message_loop
  message_loop-Keeps zero es l s ps = ps
  message_loop-Keeps (suc fuel) es l s ps =
      go_round-Keeps (message_loop p unread handle fuel) (message_loop-Keeps fuel)
        (read_payload p es) l s ps
