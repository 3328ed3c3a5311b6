-- ===== src/Socket/Failures.antt =====
-- Reads whose `recv` fails.
use security_addon.Base.{
  take_all, le→not_ltb, lt→ltb, ℕ, zero, suc, ◌+◌, ◌-◌, ◌<◌, ◌≡◌, false, ◌||◌, [], ◌∷◌, arith, ◌==◌,
  Bytes, length,
}
use security_addon.Base.{replicate}
use security_addon.Memory.{write_at}
use security_addon.Socket.{failed, arrived, complete, socket_read_loop, socket_read}

socket_read_loop-failed :
    (len readdata : ℕ) (buf : Bytes)
    → readdata < len
    → socket_read_loop (replicate (suc readdata) failed) len readdata buf ≡ (complete, buf, [])
unfolding socket_read_loop
socket_read_loop-failed len zero buf h = ground arith
socket_read_loop-failed len (suc readdata) buf h =
    rw (lt→ltb (suc readdata) len h) (socket_read_loop-failed len readdata buf (omega arith))

-- If some bytes have come, fewer than are wanted, and every `recv` behind them fails, the read
-- returns OVSA_OK after one failure more than it has bytes, and the rest of the buffer is as before;
-- the socket is not 0.
pub socket_read-failed :
    (sockfd len : ℕ) (bs buf : Bytes)
    → 0 < sockfd
    → length bs < len
    → 0 < length bs
    → socket_read sockfd (arrived bs ∷ replicate (suc (length bs)) failed) len buf
      ≡ (complete, write_at buf 0 bs, [])
unfolding socket_read socket_read_loop
socket_read-failed sockfd len [] buf open_socket short nonempty = absurd (omega (arith, nonempty))
socket_read-failed sockfd len (b ∷ bs) buf open_socket short nonempty =
    let tests_pass : (sockfd == 0 || len == 0) ≡ false = ground (arith, open_socket, short) in
    let room : len - 0 ≡ len = omega arith in
    let from_zero : 0 + length (b ∷ bs) ≡ length (b ∷ bs) = omega arith in
    rw
      (
        tests_pass,
        lt→ltb 0 len (omega (arith, short)),
        room,
        le→not_ltb len (length (b ∷ bs)) (omega (arith, short)),
        take_all len (b ∷ bs) (omega (arith, short)),
        from_zero,
      )
      (socket_read_loop-failed len (length (b ∷ bs)) (write_at buf 0 (b ∷ bs)) short)
