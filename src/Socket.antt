-- ===== src/Socket.antt =====
-- ovsa_socket_read of Ovsa_runtime/src/common/license_service_client.c, on what `recv` answers call
-- after call. Where the list ends, the peer has closed the connection. The lengths that the client
-- reads fit an int, so `readdata` does not overflow.
pub mod Failures
pub mod Exact
pub mod Tests
use security_addon.Base.{
  ℕ, zero, suc, ◌+◌, ◌-◌, ◌*◌, ◌/◌, ◌%◌, ◌^◌, ◌≤◌, ◌<◌, min, ◌≡◌, refl, sym, ap, ◌∙◌, ◌≢◌, ◌⊎◌, inl,
  inr, Bool, true, false, not, ◌&&◌, ◌||◌, Option, none, some, List, [], ◌∷◌, ◌++◌, append-nil,
  append_assoc, arith, ltb, leb, ◌==◌, if◌then◌else◌, Bytes, Bool-cases, Option-cases, length, take,
  drop,
}
use security_addon.Memory.{write_at}

-- `recv`: -1, or bytes; 0 bytes is the peer's end. Bytes without room stay for the next call.
pub data Reply : Type 0 where
  failed : Reply
  arrived : Bytes → Reply

-- What the function returns: OVSA_OK, OVSA_INVALID_PARAMETER, OVSA_SOCKET_CONN_CLOSED. The test for
-- OVSA_SOCKET_READ_FAIL asks whether a `size_t` is negative, and never holds.
pub data Outcome : Type 0 where
  complete invalid conn_closed : Outcome

-- `while (readdata < len)`. A failed `recv` makes the `size_t` 2 ^ 64 - 1, and adding it to the int
-- takes one away; -1 compares as 2 ^ 64 - 1, and ends the loop.
socket_read_loop : List Reply → ℕ → ℕ → Bytes → Outcome × Bytes × List Reply
socket_read_loop [] len readdata buf =
    if ltb readdata len then (conn_closed, buf, []) else (complete, buf, [])
socket_read_loop (failed ∷ rs) len zero buf =
    if ltb 0 len then (complete, buf, rs) else (complete, buf, failed ∷ rs)
socket_read_loop (failed ∷ rs) len (suc readdata) buf =
    let rest = socket_read_loop rs len readdata buf in
    if ltb (suc readdata) len then rest else (complete, buf, failed ∷ rs)
socket_read_loop (arrived [] ∷ rs) len readdata buf =
    if ltb readdata len then (conn_closed, buf, rs) else (complete, buf, arrived [] ∷ rs)
socket_read_loop (arrived (b ∷ bs) ∷ rs) len readdata buf =
    let room = len - readdata in
    let buf' = write_at buf readdata (take room (b ∷ bs)) in
    let rest = socket_read_loop rs len (readdata + length (b ∷ bs)) buf' in
    if not (ltb readdata len)
    then (complete, buf, arrived (b ∷ bs) ∷ rs)
    else if ltb room (length (b ∷ bs))
    then (complete, buf', arrived (drop room (b ∷ bs)) ∷ rs)
    else rest

-- `ovsa_socket_read`
pub socket_read : ℕ → List Reply → ℕ → Bytes → Outcome × Bytes × List Reply
unfolding socket_read_loop
socket_read sockfd rs len buf =
    if sockfd == 0 || len == 0 then (invalid, buf, rs) else socket_read_loop rs len 0 buf
