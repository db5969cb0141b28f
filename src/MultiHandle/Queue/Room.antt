-- ===== src/MultiHandle/Queue/Room.antt =====
-- The room that the clients have in the queue while queue_buffer moves them.
use pulsevideo.Base.{
  ℕ, zero, ◌<◌, ◌≡◌, refl, true, false, inl, inr, List, [], ◌∷◌, length, All, All-map, ℤ, pos,
  minus_one, ◌+ℤ◌, +ℤ_parts, ◌<ℤ◌, ltb_ℤ, leb_ℤ, ◌&&◌, ◌||◌, ◌⊎◌, Bool, arith,
}
use pulsevideo.MultiHandle.Types.{Client, Sink}
use pulsevideo.MultiHandle.Store.{index}
use pulsevideo.MultiHandle.Store.Hash.{Distinct}
use pulsevideo.MultiHandle.Clients.{pointers}
use pulsevideo.MultiHandle.Clients.Linked.{IsLinked}
use pulsevideo.MultiHandle.Queue.{Usage, is_too_slow}
use pulsevideo.MultiHandle.Queue.Within.{Among}
use pulsevideo.MultiHandle.Queue.Advance.{or_false, Inside, HasSettings}

-- No node comes twice.
unfoldable pub Unique : List ℕ → Type 0
Unique [] = Unit {0}
Unique (p ∷ ps) = (Among p ps → zero ≡ 1) × Unique ps

-- Addresses fall along the list of clients.
lower :
    (p : ℕ) (cs : List Client) → All (λ e. e.1 < p) (index cs) → Among p (pointers cs) → zero ≡ 1
unfolding Among pointers
lower p [] a x = x
lower p (c ∷ cs) a (inl e) = absurd (omega (arith, e, a.0))
lower p (c ∷ cs) a (inr m) = lower p cs a.1 m

pub Unique-pointers : (cs : List Client) → Distinct (index cs) → Unique (pointers cs)
unfolding Unique pointers
Unique-pointers [] d = tt
Unique-pointers (c ∷ cs) d =
    (lower c.ptr cs (All-map (index cs) (λ e h. h.1) d.0), Unique-pointers cs d.1)

-- A limit at which a client can be too slow in a queue of `len` buffers.
abbrev pub Bites : ℤ → ℕ → Type 0
Bites max len = (pos 0 <ℤ max) × (max <ℤ pos len)

-- A node that is still to be visited has room for one more step, and once a client was too slow,
-- every node has.
abbrev pub HasRoom : ℤ → ℕ → List ℕ → Client → Type 0
HasRoom max len ps c =
    Inside len c.bufpos
    × (Among c.ptr ps → c.bufpos +ℤ pos 1 <ℤ pos len)
    × (Bites max len → c.bufpos +ℤ pos 1 <ℤ pos len)

-- The state of the loop of queue_buffer: as long as the limit cannot bite, no client is removed.
pub record IsInside (s : Sink) (max : ℤ) (ps : List ℕ) (v : Usage) : Type 0 where
  pub linked : IsLinked v.sink
  pub settings : HasSettings s v.sink
  pub unique : Unique ps
  pub bites : (v.sink.clients_cookie ≡ s.clients_cookie) ⊎ Bites max (length s.bufqueue)
  pub inside : All (HasRoom max (length s.bufqueue) ps) v.sink.clients

or_true : (a b : Bool) → b ≡ false → (a || b) ≡ true → a ≡ true
or_true true b f e = refl
or_true false b f e = cc (f, e)

-- A client is too slow only at a limit that bites,
pub slow-Bites :
    (t : Sink) (max : ℤ) (now len : ℕ) (c : Client)
    → t.timeout ≡ 0
    → Inside len c.bufpos
    → is_too_slow t max now c ≡ true
    → Bites max len
unfolding is_too_slow Inside
slow-Bites t max now len c f i e =
    let high = i.1 in
    let test = or_true (ltb_ℤ (pos 0) max && leb_ℤ max c.bufpos) _ (simp f refl) e in
    (ground (arith, test), ground (arith, test, high))

-- and a client that is not has room below such a limit.
pub kept_room :
    (t : Sink) (max : ℤ) (now len : ℕ) (c : Client)
    → is_too_slow t max now c ≡ false
    → Bites max len
    → c.bufpos +ℤ pos 1 <ℤ pos len
unfolding is_too_slow
kept_room t max now len c e b =
    let test = or_false (ltb_ℤ (pos 0) max && leb_ℤ max c.bufpos) _ e in
    let parts = +ℤ_parts c.bufpos (pos 1) in
    let low = b.0 in let high = b.1 in ground (arith, test, parts, low, high)

-- A client that is put to -1.
pub room_below :
    (len : ℕ) (p : ℤ) → Inside len p → p +ℤ pos 1 <ℤ pos len → minus_one +ℤ pos 1 <ℤ pos len
unfolding Inside
room_below len p i h =
    let parts = +ℤ_parts p (pos 1) in
    let below = +ℤ_parts minus_one (pos 1) in let low = i.0 in omega (arith, parts, below, low, h)
