-- ===== src/VideoSrc/Reconnect.antt =====
-- The source and its socketsrc together: fill asks the socket, and where the other end has closed it
-- the handler asks D-Bus for another.
use pulsevideo.Base.{
  ℕ, ◌+◌, ◌<◌, ◌≡◌, refl, ap, sym, ◌∙◌, Bool, true, false, Option, none, some, List, [], ◌∷◌, ◌++◌,
  option_case, subst, length, All, arith,
}
use pulsevideo.SocketSrc.{SocketSrc, set_socket, Received, received, flow_ok, fill}
use pulsevideo.SocketSrc.Fill.{closed_before, iterate, AlwaysNew, fill-again}
use pulsevideo.VideoSrc.{
  VideoSrc, Attempt, attached, connected, PvInitResult, init_success, connect, use_fds,
  use_connected, first_some, reinit, on_socket_eos,
}
use pulsevideo.VideoSrc.Connect.{is_recoverable, connect-append}

-- What D-Bus answers while the video source restarts: errors, and then its caps and descriptors.
pub record Restart : Type 0 where
  pub errors : List Attempt
  pub caps : ℕ
  pub fd : ℕ
  pub others : List ℕ

abbrev pub answers : List Restart → List Attempt → List Attempt
answers [] rest = rest
answers (r ∷ rs) rest = r.errors ++ attached r.caps (r.fd ∷ r.others) ∷ answers rs rest

module _ (bus_get_sync : Option ℕ) (is_socket : ℕ → Bool) where
  -- A restart that the source gets over.
  abbrev pub Usable : Restart → Type 0
  Usable r = All (λ a. is_recoverable a ≡ true) r.errors × (is_socket r.fd ≡ true)

  -- The source after a restart.
  abbrev restarted : Restart → List Attempt → VideoSrc → VideoSrc
  restarted r rest src = record src {
    socketsrc = set_socket (some src.next_socket) src.socketsrc;
    do_timestamp = true;
    capsfilter = some r.caps;
    next_socket = src.next_socket + 1;
    attempts = rest;
    leaked = r.others ++ src.leaked;
  }

  has_bus :
      (o : Option ℕ) (conn : ℕ) (x y : Option PvInitResult × VideoSrc)
      → o ≡ some conn
      → option_case (first_some o bus_get_sync) x (λ d. y) ≡ y
  has_bus none conn x y e = cc
  has_bus (some c) conn x y e = refl

  reinit_live :
      (cancelled : Bool) (conn : ℕ) (src : VideoSrc)
      → cancelled ≡ false
      → src.dbus ≡ some conn
      → reinit bus_get_sync is_socket cancelled src
        ≡ use_connected bus_get_sync is_socket (connect src.attempts) src
  unfolding reinit
  reinit_live true conn src c d = cc
  reinit_live false conn src c d = has_bus src.dbus conn _ _ d

  connect-answers :
      (r : Restart) (rest : List Attempt)
      → All (λ a. is_recoverable a ≡ true) r.errors
      → connect (r.errors ++ attached r.caps (r.fd ∷ r.others) ∷ rest)
        ≡ connected r.caps (r.fd ∷ r.others) rest
  unfolding connect
  connect-answers r rest u = connect-append r.errors (attached r.caps (r.fd ∷ r.others) ∷ rest) u

  use_restart :
      (r : Restart) (rest : List Attempt) (src : VideoSrc)
      → is_socket r.fd ≡ true
      → use_connected bus_get_sync is_socket (connected r.caps (r.fd ∷ r.others) rest) src
        ≡ (some init_success, restarted r rest src)
  unfolding use_connected use_fds
  use_restart r rest src u = rw u refl

  on_socket_eos_lem :
      (conn : ℕ) (r : Restart) (rest : List Attempt) (src : VideoSrc)
      → src.socketsrc.cancelled ≡ false
      → src.dbus ≡ some conn
      → src.attempts ≡ r.errors ++ attached r.caps (r.fd ∷ r.others) ∷ rest
      → Usable r
      → on_socket_eos bus_get_sync is_socket src ≡ restarted r rest src
  unfolding on_socket_eos
  on_socket_eos_lem conn r rest src c d e u =
      ap (λ p. p.1)
        (reinit_live src.socketsrc.cancelled conn src c d
          ∙ ap (λ x. use_connected bus_get_sync is_socket x src)
              (ap connect e ∙ connect-answers r rest u.0)
          ∙ use_restart r rest src u.1)

  element : VideoSrc → SocketSrc
  element src = src.socketsrc

  -- The source can be asked again: it has a connection, is not cancelled, and its socket is an old one.
  pub record IsLive (conn socket : ℕ) (src : VideoSrc) : Type 0 where
    pub running : src.socketsrc.cancelled ≡ false
    pub bus : src.dbus ≡ some conn
    pub current : src.socketsrc.socket ≡ some socket
    pub old : socket < src.next_socket

  restarted-IsLive :
      (conn socket : ℕ) (r : Restart) (rest : List Attempt) (src : VideoSrc)
      → IsLive conn socket src
      → IsLive conn src.next_socket (restarted r rest src)
  unfolding set_socket
  restarted-IsLive conn socket r rest src l = record {
    running = l.running;
    bus = l.bus;
    current = refl;
    old = omega arith;
  }

  restarts-AlwaysNew :
      (conn socket : ℕ) (rs : List Restart) (rest : List Attempt) (src : VideoSrc)
      → IsLive conn socket src
      → src.attempts ≡ answers rs rest
      → All Usable rs
      → AlwaysNew element (on_socket_eos bus_get_sync is_socket) (length rs) socket src
  unfolding AlwaysNew element set_socket
  restarts-AlwaysNew conn socket [] rest src l e u = tt
  restarts-AlwaysNew conn socket (r ∷ rs) rest src l e u =
      let told = on_socket_eos_lem conn r (answers rs rest) src l.running l.bus e u.0 in
      let old = l.old in
      (
        src.next_socket,
        ap (λ (t : VideoSrc). t.socketsrc.socket) told,
        ground arith,
        subst (AlwaysNew element (on_socket_eos bus_get_sync is_socket) (length rs) src.next_socket)
            (sym told)
            (restarts-AlwaysNew conn src.next_socket rs rest _
              (restarted-IsLive conn socket r (answers rs rest) src l) refl u.1),
      )

  restarts-attempts :
      (conn socket : ℕ) (rs : List Restart) (rest : List Attempt) (src : VideoSrc)
      → IsLive conn socket src
      → src.attempts ≡ answers rs rest
      → All Usable rs
      → (iterate (on_socket_eos bus_get_sync is_socket) (length rs) src).attempts ≡ rest
  restarts-attempts conn socket [] rest src l e u = e
  restarts-attempts conn socket (r ∷ rs) rest src l e u =
      let told = on_socket_eos_lem conn r (answers rs rest) src l.running l.bus e u.0 in
      subst (λ t. (iterate (on_socket_eos bus_get_sync is_socket) (length rs) t).attempts ≡ rest)
        (sym told)
        (restarts-attempts conn src.next_socket rs rest _
          (restarted-IsLive conn socket r (answers rs rest) src l) refl u.1)

  -- However often the video source goes away and comes back, and whatever errors that the source
  -- takes for recoverable D-Bus answers in between, a fill of a socketsrc that is not cancelled
  -- returns the first bytes that the last of the new sockets has, and has used up just those answers,
  -- where every answer to Attach brings a first descriptor that is a socket.
  pub fill-restarts :
      (conn socket : ℕ) (restarts : List Restart) (rest : List Attempt) (src : VideoSrc)
      → IsLive conn socket src
      → src.attempts ≡ answers restarts rest
      → All Usable restarts
      → (b : ℕ) (bs : List ℕ) (rs : List Received)
      → let r =
          fill
            (λ (s : VideoSrc). s.socketsrc)
            (on_socket_eos bus_get_sync is_socket)
            (closed_before (length restarts) (received (b ∷ bs) []) rs)
            src in
        (r.flow ≡ flow_ok) × (r.contents ≡ b ∷ bs) × (r.world.attempts ≡ rest)
  unfolding element
  fill-restarts conn socket restarts rest src l e u b bs rs =
      let h =
        fill-again element (on_socket_eos bus_get_sync is_socket) (length restarts) b bs rs socket
          src l.current (restarts-AlwaysNew conn socket restarts rest src l e u) in
      (
        h.0,
        h.1,
        ap (λ (t : VideoSrc). t.attempts) h.2
            ∙ restarts-attempts conn socket restarts rest src l e u,
      )
