-- ===== src/VideoSrc/Connect.antt =====
-- Which answer of D-Bus ends the loop of reinit.
use pulsevideo.Base.{◌≡◌, refl, Bool, true, false, List, [], ◌∷◌, ◌++◌, All}
use pulsevideo.VideoSrc.{Attempt, no_proxy, no_attach, attached, is_dbus_error_recoverable, connect}

-- An attempt after which the loop goes on.
abbrev pub is_recoverable : Attempt → Bool
is_recoverable (no_proxy err) = is_dbus_error_recoverable err
is_recoverable (no_attach err) = is_dbus_error_recoverable err
is_recoverable (attached caps fds) = false

-- Any number of errors that are taken for recoverable, in whatever order, is passed over: the loop
-- ends as it does on the answers after them.
pub connect-append :
    (rs rest : List Attempt)
    → All (λ a. is_recoverable a ≡ true) rs
    → connect (rs ++ rest) ≡ connect rest
unfolding connect
connect-append [] rest h = refl
connect-append (no_proxy err ∷ rs) rest h = rw h.0 (connect-append rs rest h.1)
connect-append (no_attach err ∷ rs) rest h = rw h.0 (connect-append rs rest h.1)
connect-append (attached caps fds ∷ rs) rest h = cc
