-- ===== src/MultiSocket/Condition/Write.antt =====
-- The callback for a socket that can be written to.
use pulsevideo.Base.{ℕ, ◌≡◌, refl, true, false, not, ◌&&◌, some, List, []}
use pulsevideo.MultiHandle.Types.{Client, Sink, CapsOps, is_ok, is_flushing}
use pulsevideo.MultiHandle.Clients.{lookup}
use pulsevideo.MultiSocket.{Answer, Written, write_loop}
use pulsevideo.MultiSocket.Condition.{Condition, store_written, on_condition, socket_condition}

-- G_IO_OUT
abbrev pub can_write : Condition
can_write = record { err = false; hup = false; input = false; pri = false; output = true }

pub socket_condition-write :
    (ops : CapsOps) (now : ℕ) (answers : List Answer) (handle : ℕ) (s : Sink) (c : Client)
    (w : Written)
    → lookup handle s ≡ some c
    → (not (is_flushing c.status) && not (is_ok c.status)) ≡ false
    → write_loop ops now s answers c ≡ some w
    → socket_condition ops now can_write [] answers handle s ≡ some (store_written now w s)
unfolding socket_condition on_condition
socket_condition-write ops now answers handle s c w e h f = rw (e, f, h) refl
