-- ===== src/MultiSocket/Condition/Kept.antt =====
-- What the callbacks of the main loop keep: every property of the sink that putting a client back,
-- removing it and counting its bytes keep.
use pulsevideo.Base.{
  ℕ, ◌≡◌, sym, subst, refl, Bool, true, false, not, ◌&&◌, ◌||◌, if_cases, option_case, option_cases,
  Option, none, some, List, length, add_u64,
}
use pulsevideo.MultiHandle.Types.{
  Client, ClientStatus, Sink, CapsOps, is_ok, is_flushing, closed, error,
}
use pulsevideo.MultiHandle.Store.{find_client}
use pulsevideo.MultiHandle.Clients.{update, lookup, remove_client_link}
use pulsevideo.MultiHandle.Clients.Remove.{lookup-some}
use pulsevideo.MultiHandle.Clients.Linked.{IsLinked}
use pulsevideo.MultiHandle.Position.Key.{SameKey}
use pulsevideo.MultiSocket.{Received, read_loop, handle_client_read, Answer, Written, write_loop}
use pulsevideo.MultiSocket.Condition.Key.{read_loop_key, WrittenKey, write_loop_key}
use pulsevideo.MultiSocket.Class.{multi_socket}
use pulsevideo.MultiSocket.Condition.{
  Condition, store, store_written, on_condition, socket_condition,
}

-- What a callback leaves; `N` where it reads outside the queue.
abbrev pub After : Type 0 → (Sink → Type 0) → Option (Bool × Sink) → Type 0
After N P none = N
After N P (some r) = P r.1

-- What handle_client_write leaves of the client.
abbrev pub Wrote : Type 0 → (Client → Type 0) → Option Written → Type 0
Wrote N Q none = N
Wrote N Q (some w) = Q w.client

-- What holds of a sink whatever the callbacks do to a client whose address is meant by `G`: it is put
-- back with its key, it is removed, or bytes of it are counted. `Q` is what a client needs to be put
-- back.
pub record IsKeptAt (ops : CapsOps) (G : ℕ → Type 0) (N : Type 0) (P : Sink → Type 0)
    (Q : Sink → Client → Type 0) : Type 1 where
  pub put :
      (s : Sink) (c d : Client)
      → P s
      → find_client c.ptr s.clients ≡ some c
      → SameKey c d
      → Q s d
      → G d.ptr
      → P (update d.ptr (λ x. d) s)
  pub gone : (now p : ℕ) (s : Sink) → P s → G p → P (remove_client_link multi_socket now p s)
  pub counted : (n : ℕ) (s : Sink) → P s → P (record s { bytes_served = n })
  pub counted_for : (n : ℕ) (s : Sink) (d : Client) → Q s d → Q (record s { bytes_served = n }) d
  pub marked :
      (s : Sink) (c : Client) (st : ClientStatus)
      → P s
      → find_client c.ptr s.clients ≡ some c
      → Q s (record c { status = st })
  pub was_read :
      (s : Sink) (c : Client) (reads : List Received)
      → P s
      → find_client c.ptr s.clients ≡ some c
      → Q s (read_loop true reads c).1
  pub was_written :
      (now : ℕ) (answers : List Answer) (s : Sink) (c : Client)
      → P s
      → find_client c.ptr s.clients ≡ some c
      → Wrote N (Q s) (write_loop ops now s answers c)

module _ (ops : CapsOps) (G : ℕ → Type 0) (N : Type 0) (P : Sink → Type 0)
    (Q : Sink → Client → Type 0) (kept : IsKeptAt ops G N P Q) where
  store_kept :
      (now : ℕ) (keep : Bool) (s : Sink) (c d : Client)
      → P s
      → find_client c.ptr s.clients ≡ some c
      → SameKey c d
      → Q s d
      → G d.ptr
      → P (store now keep d s)
  store_kept now keep s c d v e h q g =
      let put = kept.put s c d v e h q g in
      if_cases P keep (λ t. put) (λ f. kept.gone now d.ptr _ put g)

  store_written_kept :
      (now : ℕ) (s : Sink) (c : Client) (o : Option Written)
      → P s
      → find_client c.ptr s.clients ≡ some c
      → WrittenKey c o
      → Wrote N (Q s) o
      → G c.ptr
      → After N P (option_case o none (λ w. some (store_written now w s)))
  unfolding WrittenKey
  store_written_kept now s c none v e k q g = q
  store_written_kept now s c (some w) v e k q g =
      let served = add_u64 s.bytes_served (length w.sent) in
      store_kept now w.result (record s { bytes_served = served }) c w.client
        (kept.counted served s v) e k (kept.counted_for served s w.client q) (subst G (sym k.1) g)

  module _ (now : ℕ) (condition : Condition) (reads : List Received) (answers : List Answer) where
    on_condition_kept :
        (c : Client) (s : Sink)
        → P s
        → find_client c.ptr s.clients ≡ some c
        → G c.ptr
        → After N P (on_condition ops now condition reads answers c s)
    unfolding on_condition handle_client_read
    on_condition_kept c s v e g =
        if_cases (After N P) (not (is_flushing c.status) && not (is_ok c.status))
          (λ t. kept.gone now c.ptr s v g)
          (λ f1.
            if_cases (After N P) condition.err
              (λ t.
                store_kept now false s c (record c { status = error }) v e (refl, refl, refl)
                  (kept.marked s c error v e) g)
              (λ f2.
                if_cases (After N P) condition.hup
                  (λ t.
                    store_kept now false s c (record c { status = closed }) v e (refl, refl, refl)
                      (kept.marked s c closed v e) g)
                  (λ f3.
                    if_cases (After N P) (condition.input || condition.pri)
                      (λ t.
                        store_kept now (read_loop true reads c).0 s c (read_loop true reads c).1 v e
                          (read_loop_key true reads c) (kept.was_read s c reads v e)
                          (subst G (sym (read_loop_key true reads c).1) g))
                      (λ f4.
                        if_cases (After N P) condition.output
                          (λ t.
                            store_written_kept now s c (write_loop ops now s answers c) v e
                              (write_loop_key ops s now answers c)
                              (kept.was_written now answers s c v e) g)
                          (λ f5. v)))))

    -- What no change of a client that is meant breaks holds after the callback for its ready socket, on
    -- every branch, whatever the socket answers.
    pub socket_condition_kept_at :
        (handle : ℕ) (s : Sink)
        → IsLinked s
        → P s
        → ((c : Client) → lookup handle s ≡ some c → G c.ptr)
        → After N P (socket_condition ops now condition reads answers handle s)
    unfolding socket_condition
    socket_condition_kept_at handle s l v g =
        option_cases (After N P) (lookup handle s) (λ n. v)
          (λ c e. on_condition_kept c s v (lookup-some handle s c l e).1 (g c e))

-- For every client.
pub record IsKept (ops : CapsOps) (N : Type 0) (P : Sink → Type 0) (Q : Sink → Client → Type 0)
    : Type 1 where
  pub put :
      (s : Sink) (c d : Client)
      → P s
      → find_client c.ptr s.clients ≡ some c
      → SameKey c d
      → Q s d
      → P (update d.ptr (λ x. d) s)
  pub gone : (now p : ℕ) (s : Sink) → P s → P (remove_client_link multi_socket now p s)
  pub counted : (n : ℕ) (s : Sink) → P s → P (record s { bytes_served = n })
  pub counted_for : (n : ℕ) (s : Sink) (d : Client) → Q s d → Q (record s { bytes_served = n }) d
  pub marked :
      (s : Sink) (c : Client) (st : ClientStatus)
      → P s
      → find_client c.ptr s.clients ≡ some c
      → Q s (record c { status = st })
  pub was_read :
      (s : Sink) (c : Client) (reads : List Received)
      → P s
      → find_client c.ptr s.clients ≡ some c
      → Q s (read_loop true reads c).1
  pub was_written :
      (now : ℕ) (answers : List Answer) (s : Sink) (c : Client)
      → P s
      → find_client c.ptr s.clients ≡ some c
      → Wrote N (Q s) (write_loop ops now s answers c)

-- What no change of one client breaks holds after the callback for a ready socket, on every branch,
-- whatever the socket answers.
pub socket_condition_kept :
    (ops : CapsOps) (N : Type 0) (P : Sink → Type 0) (Q : Sink → Client → Type 0)
    → IsKept ops N P Q
    → (now : ℕ) (condition : Condition) (reads : List Received) (answers : List Answer) (handle : ℕ)
      (s : Sink)
    → IsLinked s
    → P s
    → After N P (socket_condition ops now condition reads answers handle s)
socket_condition_kept ops N P Q kept now condition reads answers handle s l v =
    socket_condition_kept_at ops (λ p. Unit {0}) N P Q
      (record {
        put = λ s c d v e k q g. kept.put s c d v e k q;
        gone = λ now p s v g. kept.gone now p s v;
        counted = kept.counted;
        counted_for = kept.counted_for;
        marked = kept.marked;
        was_read = kept.was_read;
        was_written = kept.was_written;
      })
      now condition reads answers handle s l v (λ c e. tt)
