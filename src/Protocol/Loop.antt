-- ===== src/Protocol/Loop.antt =====
-- The `do { ... } while` loops of license_service_server.c: a message is read, its command looked
-- up and its case run, until a case says that the loop is over. The fuel bounds the messages.
pub mod Invariant
pub mod Enough
use security_addon.Base.{
  ℕ, zero, suc, ◌+◌, ◌-◌, ◌*◌, ◌/◌, ◌%◌, ◌^◌, ◌≤◌, ◌<◌, min, ◌≡◌, refl, sym, ap, ◌∙◌, ◌≢◌, ◌⊎◌, inl,
  inr, Bool, true, false, not, ◌&&◌, ◌||◌, Option, none, some, List, [], ◌∷◌, ◌++◌, append-nil,
  append_assoc, arith, ltb, leb, ◌==◌, if◌then◌else◌, Bytes, Bool-cases, Option-cases, length, take,
  drop,
}
use security_addon.Status.{Result, ok, err, fault, minus_one}
use security_addon.Transport.{Arrival}
use security_addon.Protocol.{Platform, Session, Action, lift, ◌>>=◌}
use security_addon.Protocol.Json.{CommandType, get_command_type, read_payload}

module _ {L : Type 0} (p : Platform) (unread : Session → Session)
    (handle : Bytes → CommandType → L → Action (Bool × L)) where
  unfoldable pub on_message : Bytes × Option Bytes → L → Action (Bool × L)
  on_message (read_buf, command) locals = do
    cmd ← lift (get_command_type command)
    handle read_buf cmd locals

  -- After a case, the loop is over or goes on by `next`.
  unfoldable pub go_on :
      (List Arrival → L → Session → Result L × Session × List Arrival)
      → List Arrival
      → Result (Bool × L) × Session
      → Result L × Session × List Arrival
  go_on next es (ok (true, locals), s) = (ok locals, s, es)
  go_on next es (ok (false, locals), s) = next es locals s
  go_on next es (err e, s) = (err e, s, es)
  go_on next es (fault, s) = (fault, s, es)

  -- After the read of a message.
  unfoldable pub go_round :
      (List Arrival → L → Session → Result L × Session × List Arrival)
      → Result (Bytes × Option Bytes) × List Arrival
      → L
      → Session
      → Result L × Session × List Arrival
  unfolding on_message go_on
  go_round next (ok message, es) locals s = go_on next es (on_message message locals s)
  go_round next (err e, es) locals s = (err e, unread s, es)
  go_round next (fault, es) locals s = (fault, s, es)

  unfoldable pub message_loop : ℕ → List Arrival → L → Session → Result L × Session × List Arrival
  unfolding go_round
  message_loop zero es locals s = (err minus_one, s, es)
  message_loop (suc fuel) es locals s = go_round (message_loop fuel) (read_payload p es) locals s
