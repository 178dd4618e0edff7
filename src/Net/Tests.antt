-- ===== src/Net/Tests.antt =====
-- Runs of the TCP sockets of Kernel/net/tcp.c.
use vibecoded_os.Prelude.{
  ◌+◌, ◌%◌, ◌≤◌, ◌≡◌, refl, ◌≢◌, true, false, some, List, [], ◌∷◌, ◌++◌, arith, ltb, leb, ◌&&◌,
  if◌then◌else◌, length, replicate, ◌⊎◌, min, set, add32, u32_mod,
}
use vibecoded_os.Net.Tcp.{
  TcpSocket, Tcp, Incoming, established, syn_sent, zeroed, has_ack, has_fin, has_syn_ack,
  handle_socket, handle_syn_sent, handle_open, accept_data, process_ack, handle_fin, handle_pending,
  when_acked, take_received, send_chunk, segment, ack_flag, socket_create, connect_start,
  find_unused, connecting_socket, get_socket, syn,
}
use vibecoded_os.Net.Tcp.Stream.{
  IsBuffered, received, accepted, handle_socket-received, take_received_lem,
}
use vibecoded_os.Net.Tcp.Reach.{
  Reach, AllLegal, start, next, creating, connecting, initial, Reach-AllLegal,
}
use vibecoded_os.Net.Tcp.Segments.{handle_socket-syn_sent, handle_socket-snd_una}
use vibecoded_os.Net.Tcp.Sending.{
  Look, receive_all, send_loop, payloads, InOrder, IsPrompt, send_loop_lem,
}
use vibecoded_os.Prelude.Bits.{test_bit}

-- A connection that has sent five bytes which wait for their ACK, and holds two bytes not yet read.
abbrev socket : TcpSocket
socket = record {
  local_port = 49152;
  remote_ip = 0x0100A8C0;
  remote_port = 80;
  state = established;
  snd_una = 100;
  snd_nxt = 105;
  rcv_nxt = 500;
  iss = 99;
  irs = 497;
  send_buf = replicate 4096 0;
  send_len = 0;
  send_acked = 0;
  recv_buf = replicate 4096 7;
  recv_len = 2;
  recv_read = 0;
  remote_window = 1000;
  retrans_tick = 0;
  retrans_count = 0;
  used = true;
  pending_close = false;
}

abbrev syn_socket : TcpSocket
syn_socket = record socket { state = syn_sent }

socket-IsBuffered : IsBuffered socket
socket-IsBuffered = record { size = refl; fill = omega arith }

-- The next three bytes, an ACK of all that was sent, and a FIN.
abbrev packet : Incoming
packet = record {
  src_ip = 0x0100A8C0;
  src_port = 80;
  dst_port = 49152;
  seq = 500;
  ack = 105;
  flags = 0x11;
  window = 1000;
  payload = 1 ∷ 2 ∷ 3 ∷ [];
}

-- A SYN and an ACK of all that was sent
abbrev answer : Incoming
answer = record packet { flags = 0x12; payload = [] }

packet_fin : has_fin packet.flags ≡ true
unfolding test_bit
packet_fin = refl

handle_socket-received_example :
    let s' = (handle_socket packet socket).0 in
    (received s' ≡ received socket ++ accepted packet socket)
    × (s'.rcv_nxt
        ≡ (500 + length (accepted packet socket) + (if has_fin 0x11 then 1 else 0)) % u32_mod)
    × IsBuffered s'
handle_socket-received_example =
    handle_socket-received packet socket socket-IsBuffered (omega arith) refl

take_received_lem_example :
    let (out, s') = take_received 1 socket in
    (out ++ received s' ≡ received socket) × (length out ≡ min 1 2) × IsBuffered s'
take_received_lem_example = take_received_lem 1 socket socket-IsBuffered

handle_socket-syn_sent_example :
    let (s', out) = handle_socket answer syn_socket in
    ((has_syn_ack 0x12 ≡ true)
      × (answer.ack ≡ syn_socket.snd_nxt)
      × (s'.state ≡ established)
      × (s'.rcv_nxt ≡ add32 500 1)
      × (s'.snd_una ≡ 105)
      × (out ≡ segment s' ack_flag [] 105 (add32 500 1) ∷ []))
    ⊎ (((has_syn_ack 0x12 ≡ false) ⊎ (answer.ack ≢ syn_socket.snd_nxt))
        × (s'.state ≡ syn_sent)
        × (s'.rcv_nxt ≡ 500)
        × (s'.snd_una ≡ 100)
        × (out ≡ []))
handle_socket-syn_sent_example = handle_socket-syn_sent answer syn_socket refl

answer_accepted : (handle_socket answer syn_socket).0.state ≡ established
unfolding handle_socket handle_syn_sent test_bit
answer_accepted = refl

handle_socket-snd_una_example :
    let s' = (handle_socket packet socket).0 in
    (s'.snd_una ≡ (if has_ack 0x11 && (ltb 100 105 && leb 105 105) then 105 else 100))
    × (100 ≤ s'.snd_una)
    × (s'.snd_una ≤ 105)
handle_socket-snd_una_example = handle_socket-snd_una packet socket refl (omega arith)

-- The window is full at the first look; an ACK comes, and two segments go out.
abbrev looks : List Look
looks =
    record { arrived = []; tick = 7 }
    ∷ record { arrived = record packet { flags = 0x10; payload = []; window = 2 } ∷ []; tick = 8 }
    ∷ record {
      arrived = record packet { flags = 0x10; ack = 107; payload = []; window = 9 } ∷ [];
      tick = 9;
    }
    ∷ []

abbrev full_socket : TcpSocket
full_socket = record socket { remote_window = 5 }

sends_all : payloads (send_loop looks (7 ∷ 8 ∷ 9 ∷ []) full_socket).segments ≡ 7 ∷ 8 ∷ 9 ∷ []
unfolding send_loop payloads receive_all send_chunk segment handle_socket handle_open accept_data
    process_ack handle_fin handle_pending when_acked test_bit
sends_all = refl

send_loop_lem_example :
    let r = send_loop looks (7 ∷ 8 ∷ 9 ∷ []) full_socket in
    (payloads r.segments ++ r.rest ≡ 7 ∷ 8 ∷ 9 ∷ [])
    × InOrder 105 r.socket.snd_nxt r.segments
    × IsPrompt looks (7 ∷ 8 ∷ 9 ∷ []) full_socket r
send_loop_lem_example = send_loop_lem looks (7 ∷ 8 ∷ 9 ∷ []) full_socket refl

-- A table with one socket, which has sent its SYN.
abbrev created : Tcp
created = (socket_create initial).1

abbrev connecting_table : Tcp
connecting_table = record {
  sockets =
      set created.sockets 0
        (connecting_socket 0x0100A8C0 80 10 49152 (get_socket created.sockets 0));
  next_local_port = 49153;
}

connects :
    connect_start 0 0x0100A8C0 80 10 created
    ≡ some (
      connecting_table,
      segment
            (connecting_socket 0x0100A8C0 80 10 49152 (get_socket created.sockets 0))
            syn
            []
            (connecting_socket 0x0100A8C0 80 10 49152 (get_socket created.sockets 0)).iss
            0
          ∷ [],
    )
unfolding connect_start socket_create zeroed find_unused
connects = refl

connecting_table-Reach : Reach connecting_table
connecting_table-Reach =
    next {u = connecting_table} (next start creating) (connecting 0 0x0100A8C0 80 10 connects)

Reach-AllLegal_example : AllLegal connecting_table
Reach-AllLegal_example = Reach-AllLegal {t = connecting_table} connecting_table-Reach
