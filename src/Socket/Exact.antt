-- ===== src/Socket/Exact.antt =====
-- Reads whose `recv` does not fail, against the stream of bytes.
use security_addon.Base.{
  take-append-drop, take-append, length-drop, ltb→lt, length-append, length-take, take_all, ℕ, ◌+◌,
  ◌-◌, ◌≤◌, ◌≡◌, sym, ap, ◌∙◌, inl, inr, ◌||◌, List, [], ◌∷◌, ◌++◌, append_assoc, arith, ltb, ◌==◌,
  Bytes, Bool-cases, length, take, drop,
}
use security_addon.Memory.{write_at}
use security_addon.Socket.{
  Reply, failed, arrived, Outcome, complete, invalid, conn_closed, socket_read_loop, socket_read,
}

-- The bytes that the peer has sent and the client has not read.
abbrev pub unread : List Reply → Bytes
unread [] = []
unread (failed ∷ rs) = unread rs
unread (arrived bs ∷ rs) = bs ++ unread rs

-- No `recv` fails.
abbrev pub Steady : List Reply → Type 0
Steady [] = Unit
Steady (failed ∷ rs) = ⊥
Steady (arrived bs ∷ rs) = Steady rs

-- On success the first `len` bytes of the buffer are those that it had, `readdata` of them, and the
-- next ones of the stream.
abbrev pub Fills : ℕ → ℕ → Bytes → List Reply → Outcome × Bytes × List Reply → Type 0
Fills len readdata buf rs (complete, buf', rs') =
    take len buf' ++ unread rs' ≡ take readdata buf ++ unread rs
Fills len readdata buf rs (_, buf', rs') = Unit

take-write_at :
    (mem bs : Bytes) (at : ℕ)
    → at ≤ length mem
    → take (at + length bs) (write_at mem at bs) ≡ take at mem ++ bs
unfolding write_at
take-write_at mem bs at h =
    let written : Bytes = take at mem ++ bs in
    let count : length written ≡ at + length bs =
      omega (arith, length-append (take at mem) bs, length-take at mem) in
    rw (sym (append_assoc (take at mem) bs (drop (at + length bs) mem)))
      (rw count at (take-append written (drop (at + length bs) mem)))

length-write_at :
    (mem bs : Bytes) (at : ℕ)
    → at + length bs ≤ length mem
    → length (write_at mem at bs) ≡ length mem
unfolding write_at
length-write_at mem bs at h = omega (
  arith,
  length-append (take at mem) (bs ++ drop (at + length bs) mem),
  length-append bs (drop (at + length bs) mem),
  length-take at mem,
  length-drop (at + length bs) mem,
)

Fills-full :
    (len readdata : ℕ) (buf : Bytes) (rs : List Reply)
    → readdata ≡ len
    → Fills len readdata buf rs (complete, buf, rs)
Fills-full len readdata buf rs full = rw full

-- A chunk that fills the buffer.
Fills-part :
    (len readdata : ℕ) (bs buf : Bytes) (rs : List Reply)
    → readdata ≤ len
    → len ≤ length buf
    → len - readdata ≤ length bs
    → Fills len readdata buf (arrived bs ∷ rs) (
      complete,
      write_at buf readdata (take (len - readdata) bs),
      arrived (drop (len - readdata) bs) ∷ rs,
    )
Fills-part len readdata bs buf rs h room enough =
    let n : readdata + length (take (len - readdata) bs) ≡ len =
      omega (arith, length-take (len - readdata) bs) in
    let filled = rw n at (take-write_at buf (take (len - readdata) bs) readdata (omega arith)) in
    rw filled (
      append_assoc (take readdata buf) (take (len - readdata) bs)
        (drop (len - readdata) bs ++ unread rs)
      ∙ ap (◌++◌ (take readdata buf)) (
          sym (append_assoc (take (len - readdata) bs) (drop (len - readdata) bs) (unread rs))
          ∙ ap (λ x. x ++ unread rs) (take-append-drop (len - readdata) bs)))

-- A chunk that is taken whole.
Fills-chunk :
    (len readdata : ℕ) (bs buf : Bytes) (rs : List Reply) (r : Outcome × Bytes × List Reply)
    → readdata ≤ length buf
    → Fills len (readdata + length bs) (write_at buf readdata bs) rs r
    → Fills len readdata buf (arrived bs ∷ rs) r
Fills-chunk len readdata bs buf rs (complete, out, rs') h filled =
    filled
    ∙ ap (λ x. x ++ unread rs) (take-write_at buf bs readdata h)
    ∙ append_assoc (take readdata buf) bs (unread rs)
Fills-chunk len readdata bs buf rs (invalid, out, rs') h filled = tt
Fills-chunk len readdata bs buf rs (conn_closed, out, rs') h filled = tt

socket_read_loop-Fills :
    (rs : List Reply) (len readdata : ℕ) (buf : Bytes)
    → Steady rs
    → readdata ≤ len
    → len ≤ length buf
    → Fills len readdata buf rs (socket_read_loop rs len readdata buf)
unfolding socket_read_loop
socket_read_loop-Fills [] len readdata buf s h room = elim (Bool-cases (ltb readdata len)) [
  | inl more ↦ rw more tt
  | inr full ↦ rw full (Fills-full len readdata buf [] (ground arith))
]
socket_read_loop-Fills (failed ∷ rs) len readdata buf s h room = absurd s
socket_read_loop-Fills (arrived [] ∷ rs) len readdata buf s h room =
    elim (Bool-cases (ltb readdata len)) [
      | inl more ↦ rw more tt
      | inr full ↦ rw full (Fills-full len readdata buf (arrived [] ∷ rs) (ground arith))
    ]
socket_read_loop-Fills (arrived (b ∷ bs) ∷ rs) len readdata buf s h room =
    elim (Bool-cases (ltb readdata len)) [
      | inr full ↦ rw full (Fills-full len readdata buf (arrived (b ∷ bs) ∷ rs) (ground arith))
      | inl more ↦ rw more (elim (Bool-cases (ltb (len - readdata) (length (b ∷ bs)))) [
        | inl part ↦ rw part (Fills-part len readdata (b ∷ bs) buf rs h room (ground arith))
        | inr whole ↦
            let fits : length (b ∷ bs) ≤ len - readdata = ground arith in
            rw (whole, take_all (len - readdata) (b ∷ bs) fits)
              (Fills-chunk len readdata (b ∷ bs) buf rs _ (omega arith) (
                socket_read_loop-Fills rs len (readdata + length (b ∷ bs))
                  (write_at buf readdata (b ∷ bs)) s (omega (arith, ltb→lt _ _ more))
                  (omega (
                    arith,
                    length-write_at buf (b ∷ bs) readdata (omega (arith, ltb→lt _ _ more)),
                  ))))
      ])
    ]

-- Where no `recv` fails, a read into a buffer with room that returns OVSA_OK has filled it with
-- exactly the next `len` bytes of the stream, and leaves the rest for the next read.
pub socket_read-Fills :
    (sockfd : ℕ) (rs : List Reply) (len : ℕ) (buf : Bytes)
    → Steady rs
    → len ≤ length buf
    → Fills len 0 buf rs (socket_read sockfd rs len buf)
unfolding socket_read
socket_read-Fills sockfd rs len buf s room = elim (Bool-cases (sockfd == 0 || len == 0)) [
  | inl bad ↦ rw bad tt
  | inr good ↦ rw good (socket_read_loop-Fills rs len 0 buf s (omega arith) room)
]
