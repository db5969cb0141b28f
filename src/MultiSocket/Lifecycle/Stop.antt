-- ===== src/MultiSocket/Lifecycle/Stop.antt =====
-- Starting and stopping the sink.
use pulsevideo.Base.{
  ℕ, ◌≡◌, refl, true, false, not, if_cases, List, [], ◌∷◌, map, All, if◌then◌else◌, ap,
}
use pulsevideo.MultiHandle.Types.{Client, Sink}
use pulsevideo.MultiHandle.Store.{index}
use pulsevideo.MultiHandle.Clients.Linked.{IsLinked, IsLinked-same}
use pulsevideo.MultiHandle.Clients.Clear.{clear-nil, clear-running}
use pulsevideo.MultiSocket.Class.{multi_socket, hash_adding, hash_adding_lem}
use pulsevideo.MultiSocket.Lifecycle.{start_pre, start, stop_post, stop}

-- A sink that is shut: it has no client, no handle and no buffer.
pub record IsShut (s : Sink) : Type 0 where
  pub shut : s.is_open ≡ false
  pub stopped : s.running ≡ false
  pub no_clients : s.clients ≡ []
  pub no_handles : s.handle_hash ≡ []
  pub no_buffers : s.bufqueue ≡ []
  pub no_headers : s.streamheader ≡ []
  pub no_context : s.main_context ≡ false

-- Where the hash table and the list of clients agree, and no client is being removed, stop leaves
-- an open sink shut.
pub stop-IsShut :
    (now : ℕ) (s : Sink)
    → IsLinked s
    → s.is_open ≡ true
    → All (λ (c : Client). c.currently_removing ≡ false) s.clients
    → IsShut (stop now s)
unfolding stop stop_post
stop-IsShut now s v o a =
    let halted = record s { running = false } in
    let gone = clear-nil multi_socket now halted (IsLinked-same refl refl refl v) a in
    if_cases IsShut (not s.is_open) (λ t. cc (ap not o))
      (λ f. record {
        shut = refl;
        stopped = clear-running multi_socket now halted;
        no_clients = gone.0;
        no_handles = refl;
        no_buffers = refl;
        no_headers = refl;
        no_context = refl;
      })

start_key :
    (t : Sink) (c : Client)
    → let d = (if c.source then c else hash_adding t c) in (d.handle ≡ c.handle) × (d.ptr ≡ c.ptr)
start_key t c = (
  if_cases (λ (d : Client). d.handle ≡ c.handle) c.source (λ e. refl)
      (λ e. ap (λ (d : Client). d.handle) (hash_adding_lem t c)),
  if_cases (λ (d : Client). d.ptr ≡ c.ptr) c.source (λ e. refl)
      (λ e. ap (λ (d : Client). d.ptr) (hash_adding_lem t c)),
)

index-start :
    (t : Sink) (cs : List Client)
    → index (map (λ (c : Client). if c.source then c else hash_adding t c) cs) ≡ index cs
index-start t [] = refl
index-start t (c ∷ cs) = rw ((start_key t c).0, (start_key t c).1, index-start t cs) refl

-- Where the hash table and the list of clients agree, they agree after start, which attaches a
-- source to every client that is listed already.
pub start-IsLinked : (s : Sink) → IsLinked s → IsLinked (start s)
unfolding start start_pre
start-IsLinked s v =
    if_cases IsLinked s.is_open (λ t. v)
      (λ f. IsLinked-same (index-start (record s { main_context = true }) s.clients) refl refl v)
