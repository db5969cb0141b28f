-- ===== src/Lib.antt =====
-- pulsevideo shares live video between processes: a pulsevideosink publishes an object on D-Bus, and a
-- pulsevideosrc in another process attaches to it and gets a socket and the caps of the stream. This
-- library models the two elements and those that they are made of: the socket sinks of gst/tcp, the
-- elements of gst/tmpfile that turn a buffer into a message with a file descriptor and back, the
-- socketsrc, the size check rawvideovalidate, the watchdog and the fault injection.
--
-- A multihandlesink gets buffers on its streaming thread (render, queue_buffer), keeps the newest of
-- them in a queue whose index 0 is the newest buffer, and keeps for each client the position of the
-- next buffer that it gets. The multisocketsink is its subclass for GSocket handles: its main loop
-- calls back when a socket is ready (socket_condition), and handle_client_write moves buffers from the
-- queue to the client and from there to the socket. The application adds, removes and flushes clients
-- at any time. In front of the sink, fdpay replaces each buffer by a message of 24 bytes and its file
-- descriptor, which fddepay at the other end of the socket turns back into memory. Attach of the
-- pulsevideosink makes a pair of sockets and adds one end to the multisocketsink; the other end becomes
-- the socket of the pulsevideosrc's socketsrc. When it is closed, fill of the socketsrc emits
-- on-socket-eos, and the handler of the pulsevideosrc asks D-Bus for another.
--
--   Base            numbers, Boolean tests, lists, C integers and their conversions
--   MultiHandle     gstmultihandlesink: Types is the header's data; Keyframe is is_sync_frame and
--                   find_syncframe; Limits is get_buffers_max, find_limits and count_burst_unit;
--                   Position is new_client_position and recover_client; Class is client_init and the
--                   virtual methods; Store is the list of clients and the hash table; Clients is
--                   add_full, remove, remove_flush, clear, get_stats and remove_client_link; Queue is
--                   client_queue_buffer, queue_buffer and render; Properties is init, the properties and
--                   the DSCP of the sockets
--   MultiSocket     gstmultisocketsink: handle_client_read and handle_client_write; Class is its virtual
--                   methods; Messages is gst_multi_socket_sink_write; Condition is socket_condition and
--                   the timeout; Lifecycle is start, stop and change_state; Thread is the loop of the
--                   sink's own thread; Stream is what a client is owed, one client through all that
--                   happens to the sink (Follow), and through remove_flush (Flush); Reach is the
--                   relation of all of these steps
--   TmpFile         gst/tmpfile: the message of wire-protocol.h, transform_ip of gstfdpay.c and of
--                   gstfddepay.c; Allocator is gsttmpfileallocator.c and gst_fdpay_get_fd_memory;
--                   Negotiation is the caps, the allocation query and the clock of both
--   SocketSrc       gst/gstsocketsrc.c
--   VideoSrc        gst/gstpulsevideosrc.c, alone and with the socketsrc (Reconnect)
--   VideoSink       gst/gstpulsevideosink.c: Attach, Register, the wait for caps, and the
--                   multisocketsink as it is configured (Serve)
--   RawVideoValidate, Watchdog and Fault
--                   gst/gstrawvideovalidate.c, gst/debugutils/gstwatchdog.c and gst/fault.h
--   Examples        concrete sinks, queues and messages
--
-- A client is a record, named by the address that g_new0 gave it; a write through a pointer is
-- `update_client`, and the hash table maps a handle to that address. The virtual methods of the class
-- are the fields of `SinkClass`, of which `multi_socket` is the value for the multisocketsink. A gint is
-- an integer; where the code relies on the wrap-around of a conversion (to_u32, to_u64, to_gint,
-- to_gint64, sub_u64, add_u64) it is written out. The queue is a list of buffers, and an index outside
-- it is `none`, as is the read of a list node that has been freed; where reinit would read a NULL
-- pointer it sets `crashed` instead and has no result.
--
-- The loops that the code restarts with `goto` have as much fuel as the sink has clients, and one
-- more, since each restart follows a removal. The loop of find_syncframe has one round for each buffer
-- and one more. handle_client_write and handle_client_read end with the list of answers that the
-- socket gives; after it a socket would block, and has nothing to read. The sink's thread ends with
-- the list of iterations of the main context, after which it waits. The copy loop ends with the list
-- of answers that write gives. fill and reinit end with the lists of answers of the socket and of
-- D-Bus, after which a call is cancelled. The wait of Attach has 2003 rounds of at least 10 ms, more
-- than its 20 s; the parser of inject_fault has one round for each character and one more.
--
-- Not modelled: locks, and signal handlers that call back while remove_client_link has released the
-- lock; reference counts; logging; the registration of types; GIO, D-Bus and GStreamer themselves. How
-- caps are compared is a parameter, CapsOps; so are the clock, the segment (Timing), fstat,
-- getsockname, strtol, the parent classes of the elements and the answers of D-Bus. The time is read
-- once for a loop. A buffer without memories counts as one that is sent at once, where the code ends
-- the process. The fd allocator is a copy of gst-plugins-base, the meta of
-- gst/gstnetcontrolmessagemeta.c holds one reference, and the daemon is written in Vala.
pub mod Base
pub mod MultiHandle
pub mod MultiSocket
pub mod TmpFile
pub mod SocketSrc
pub mod VideoSrc
pub mod VideoSink
pub mod Fault
pub mod RawVideoValidate
pub mod Watchdog
pub mod Examples
