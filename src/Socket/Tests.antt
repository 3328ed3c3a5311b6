-- ===== src/Socket/Tests.antt =====
-- A read of five bytes of which two come.
use security_addon.Socket.Exact.{socket_read-Fills, Fills}
use security_addon.Base.{◌≡◌, [], ◌∷◌, arith}
use security_addon.Base.{codes, replicate}
use security_addon.Memory.{write_at, zeros}
use security_addon.Socket.{failed, arrived, complete, socket_read}
use security_addon.Socket.Failures.{socket_read-failed}

socket_read-failed_example :
    socket_read 3 (arrived (codes "ab") ∷ replicate 3 failed) 5 (zeros 5)
    ≡ (complete, write_at (zeros 5) 0 (codes "ab"), [])
socket_read-failed_example =
    socket_read-failed 3 5 (codes "ab") (zeros 5) (omega arith) (omega arith) (omega arith)

socket_read-Fills_example :
    Fills 3 0
      (zeros 3)
      (arrived (codes "ab") ∷ arrived (codes "cd") ∷ [])
      (socket_read 3 (arrived (codes "ab") ∷ arrived (codes "cd") ∷ []) 3 (zeros 3))
socket_read-Fills_example =
    socket_read-Fills 3 (arrived (codes "ab") ∷ arrived (codes "cd") ∷ []) 3 (zeros 3) tt
      (omega arith)
