-- ===== src/VideoSrc/Reinit.antt =====
-- What reinit leaves, on each of the ways in which it ends.
use pulsevideo.Base.{
  ℕ, ◌+◌, ◌≡◌, ◌⊎◌, inl, inr, refl, ap, Bool, true, if_cases, option_cases, Option, none, some,
  List, [], ◌∷◌,
}
use pulsevideo.SocketSrc.{set_socket}
use pulsevideo.VideoSrc.{
  VideoSrc, Attempt, no_proxy, no_attach, attached, Connected, connected, gave_up, connect,
  PvInitResult, init_success, init_failure, init_noobject, element_error, element_warning,
  is_dbus_error_recoverable, use_fds, use_connected, first_some, reinit,
}

-- The socketsrc gets the next socket exactly where the result is PV_INIT_SUCCESS; an error is posted
-- exactly where it is PV_INIT_FAILURE, and with PV_INIT_NOOBJECT a warning at most. There is no result
-- where the answer that ends the loop brings no descriptor.
unfoldable pub Ended : VideoSrc → Option PvInitResult × VideoSrc → Type 0
Ended src (some init_success, t) =
    (t.socketsrc.socket ≡ some src.next_socket)
    × (t.next_socket ≡ src.next_socket + 1)
    × (t.posted ≡ src.posted)
    × (t.crashed ≡ src.crashed)
Ended src (some init_failure, t) =
    (t.socketsrc ≡ src.socketsrc)
    × (t.posted ≡ element_error ∷ src.posted)
    × (t.crashed ≡ src.crashed)
Ended src (some init_noobject, t) =
    (t.socketsrc ≡ src.socketsrc)
    × ((t.posted ≡ src.posted) ⊎ (t.posted ≡ element_warning ∷ src.posted))
    × (t.crashed ≡ src.crashed)
Ended src (none, t) =
    ((caps : ℕ) × (rest : List Attempt) × (connect src.attempts ≡ connected caps [] rest))
    × (t.crashed ≡ true)
    × (t.socketsrc ≡ src.socketsrc)
    × (t.posted ≡ src.posted)

-- What the loop gives up with.
Paired : Connected → Type 0
Paired (connected caps fds rest) = Unit {0}
Paired (gave_up init_success posted rest) = init_success ≡ init_failure
Paired (gave_up init_failure posted rest) = posted ≡ element_error
Paired (gave_up init_noobject posted rest) = posted ≡ element_warning

connect-Paired : (rs : List Attempt) → Paired (connect rs)
unfolding connect Paired
connect-Paired [] = refl
connect-Paired (no_proxy err ∷ rs) =
    let again = connect-Paired rs in
    if_cases Paired (is_dbus_error_recoverable err) (λ t. again) (λ f. refl)
connect-Paired (no_attach err ∷ rs) =
    let again = connect-Paired rs in
    if_cases Paired (is_dbus_error_recoverable err) (λ t. again) (λ f. refl)
connect-Paired (attached caps fds ∷ rs) = tt

module _ (bus_get_sync : Option ℕ) (is_socket : ℕ → Bool) where
  use_fds-Ended :
      (fds : List ℕ) (caps : ℕ) (rest : List Attempt) (src : VideoSrc)
      → connect src.attempts ≡ connected caps fds rest
      → Ended src (
          use_fds bus_get_sync is_socket fds
            (record src { attempts = rest; capsfilter = some caps }))
  unfolding use_fds Ended set_socket
  use_fds-Ended [] caps rest src e = ((caps, rest, e), refl, refl, refl)
  use_fds-Ended (fd ∷ fds) caps rest src e =
      if_cases (Ended src) (is_socket fd) (λ t. (refl, refl, refl, refl)) (λ f. (refl, refl, refl))

  use_connected-Ended :
      (c : Connected) (src : VideoSrc)
      → connect src.attempts ≡ c
      → Paired c
      → Ended src (use_connected bus_get_sync is_socket c src)
  unfolding use_connected Ended Paired
  use_connected-Ended (connected caps fds rest) src e h = use_fds-Ended fds caps rest src e
  use_connected-Ended (gave_up init_success posted rest) src e h = cc
  use_connected-Ended (gave_up init_failure posted rest) src e h =
      (refl, ap (λ x. x ∷ src.posted) h, refl)
  use_connected-Ended (gave_up init_noobject posted rest) src e h =
      (refl, inr (ap (λ x. x ∷ src.posted) h), refl)

  -- Whether it is cancelled or not, reinit does one of four things. It gives the socketsrc the next
  -- socket, posts nothing and returns PV_INIT_SUCCESS; or it leaves the socketsrc as it was and posts
  -- one error and returns PV_INIT_FAILURE, or posts a warning at most and returns PV_INIT_NOOBJECT; or
  -- the answer to Attach that ends its loop brings no file descriptor, and it reads a NULL pointer
  -- instead of returning, with the socketsrc as it was and nothing posted.
  pub reinit-Ended :
      (cancelled : Bool) (src : VideoSrc) → Ended src (reinit bus_get_sync is_socket cancelled src)
  unfolding reinit Ended
  reinit-Ended cancelled src =
      if_cases (Ended src) cancelled (λ t. (refl, inl refl, refl))
        (λ f.
          option_cases (Ended src) (first_some src.dbus bus_get_sync) (λ n. (refl, refl, refl))
            (λ c e.
              use_connected-Ended (connect src.attempts) src refl (connect-Paired src.attempts)))
