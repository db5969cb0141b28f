-- ===== src/Examples/Sinks.antt =====
-- Examples of the operations on a sink.
use pulsevideo.Base.{
  ◌⊎◌, ◌≡◌, refl, true, false, none, some, [], ◌∷◌, ◌++◌, All, length, inl, sub_u64, pos, ◌≤◌,
  arith,
}
use pulsevideo.MultiHandle.Types.{error, Client, Sink, client_removed, removed}
use pulsevideo.MultiHandle.Store.{find_client, hash_lookup}
use pulsevideo.MultiHandle.Clients.{lookup, remove, clear, mark_removed}
use pulsevideo.MultiHandle.Clients.Linked.{IsLinked, IsLinked-same}
use pulsevideo.MultiHandle.Clients.Remove.{remove_lem, mark}
use pulsevideo.MultiHandle.Clients.Clear.{clear-nil}
use pulsevideo.MultiHandle.Queue.{queue_buffer}
use pulsevideo.MultiHandle.Queue.Within.{IsSettled, queue_buffer-IsSettled}
use pulsevideo.MultiHandle.Queue.Advance.{Inside}
use pulsevideo.MultiHandle.Queue.Bounded.{queue_buffer-length}
use pulsevideo.MultiHandle.Queue.Inside.{queue_buffer-Inside}
use pulsevideo.MultiSocket.Read.{handle_client_read-got}
use pulsevideo.MultiSocket.{got, handle_client_read, accepted, would_block, write_loop}
use pulsevideo.MultiSocket.Stream.Conserve.{IsConserved, write_loop-IsConserved}
use pulsevideo.MultiSocket.Class.{multi_socket}
use pulsevideo.MultiSocket.Condition.{Condition, is_overdue, on_timeout}
use pulsevideo.MultiSocket.Condition.Timeout.{AnyOverdue, on_timeout-freed}
use pulsevideo.MultiHandle.Queue.Render.{render_all, with_headers, render_all-header}
use pulsevideo.MultiSocket.Lifecycle.{stop}
use pulsevideo.MultiSocket.Lifecycle.Stop.{IsShut, stop-IsShut}
use pulsevideo.Examples.{header, key, delta, any_caps, old_client, two_clients, queue}

pub two_clients-IsLinked : IsLinked two_clients
two_clients-IsLinked = record {
  indexed = refl;
  distinct = (((λ e. omega (arith, e), omega arith), tt), (tt, tt));
  fresh = (omega arith, (omega arith, tt));
}

write_loop-IsConserved_example :
    IsConserved any_caps two_clients old_client
      (write_loop any_caps 7 two_clients (accepted 1 ∷ accepted 2 ∷ would_block ∷ []) old_client)
write_loop-IsConserved_example =
    write_loop-IsConserved any_caps two_clients (λ c. refl) 7
      (accepted 1 ∷ accepted 2 ∷ would_block ∷ []) old_client
      (record { placed = refl; low = omega arith; high = omega arith })

queue_buffer-IsSettled_example :
    IsSettled (delta ∷ queue) (queue_buffer multi_socket 7 delta two_clients)
queue_buffer-IsSettled_example =
    queue_buffer-IsSettled multi_socket 7 delta two_clients two_clients-IsLinked

queue_buffer-Inside_example :
    All
      (λ (c : Client).
        Inside (length (queue_buffer multi_socket 7 key two_clients).bufqueue) c.bufpos)
      (queue_buffer multi_socket 7 key two_clients).clients
unfolding Inside
queue_buffer-Inside_example =
    queue_buffer-Inside multi_socket 7 key two_clients two_clients-IsLinked refl (omega arith)
      ((omega arith, omega arith), ((omega arith, omega arith), tt))

queue_buffer-length_example :
    length (queue_buffer multi_socket 7 delta (record two_clients { units_max = pos 2 })).bufqueue
    ≤ 2
queue_buffer-length_example =
    queue_buffer-length multi_socket 7 delta (record two_clients { units_max = pos 2 }) 1
      (IsLinked-same refl refl refl two_clients-IsLinked)
      (record { no_bytes = refl; no_buffers = refl; no_time = refl; no_sync = refl }) refl refl
      (omega arith)

remove_lem_example :
    (lookup 10 (remove multi_socket 7 10 two_clients) ≡ none)
    × (lookup 20 (remove multi_socket 7 10 two_clients) ≡ lookup 20 two_clients)
    × ((remove multi_socket 7 10 two_clients).signals
        ≡ multi_socket.client_free (mark_removed multi_socket 7 (mark old_client))
          ++ client_removed 10 removed ∷ [])
unfolding lookup find_client hash_lookup
remove_lem_example =
    remove_lem multi_socket 7 10 two_clients old_client two_clients-IsLinked refl refl refl 20
      (λ e. omega (arith, e))

clear-nil_example :
    ((clear multi_socket 7 two_clients).clients ≡ [])
    × ((clear multi_socket 7 two_clients).handle_hash ≡ [])
clear-nil_example = clear-nil multi_socket 7 two_clients two_clients-IsLinked (refl, (refl, tt))

stop-IsShut_example : IsShut (stop 7 two_clients)
stop-IsShut_example = stop-IsShut 7 two_clients two_clients-IsLinked refl (refl, (refl, tt))

abbrev closed_sink : Sink
closed_sink = record two_clients { is_open = false; running = false; main_context = false }

closed_sink-IsLinked : IsLinked closed_sink
closed_sink-IsLinked = record {
  indexed = two_clients-IsLinked.indexed;
  distinct = two_clients-IsLinked.distinct;
  fresh = two_clients-IsLinked.fresh;
}

-- Both clients were last active at 5.
abbrev impatient : Sink
impatient = record two_clients { timeout = 100 }

on_timeout-freed_example : on_timeout 1000 impatient ≡ none
unfolding AnyOverdue is_overdue sub_u64
on_timeout-freed_example =
    on_timeout-freed 1000 impatient (IsLinked-same refl refl refl two_clients-IsLinked)
      (refl, (refl, tt)) (inl (refl, refl))

-- A socket that can be written to.
abbrev writable : Condition
writable = record { err = false; hup = false; input = false; pri = false; output = true }

render_all-header_example :
    render_all multi_socket 7 (header ∷ header ∷ []) two_clients
    ≡ some (with_headers multi_socket 7 (header ∷ header ∷ []) two_clients)
render_all-header_example =
    render_all-header multi_socket 7 header (header ∷ []) two_clients refl refl (refl, (refl, tt))

handle_client_read-got_example :
    (handle_client_read (got 3 ∷ got 0 ∷ []) old_client ≡ (true, old_client))
    ⊎ (handle_client_read (got 3 ∷ got 0 ∷ []) old_client
        ≡ (false, record old_client { status = error }))
handle_client_read-got_example = handle_client_read-got 2 (got 0 ∷ []) old_client
