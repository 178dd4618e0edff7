-- ===== src/Net/Tcp.antt =====
-- Kernel/net/tcp.c: the TCP sockets. A function that sends returns the segments it hands to
-- Ipv4Send, in order; their bytes are in Net/Tcp/Wire. The ticks of KeGetTickCount are arguments.
pub mod Stream
pub mod Reach
pub mod Segments
pub mod Pending
pub mod Sending
pub mod Wire
use vibecoded_os.Prelude.{
  ℕ, zero, suc, ◌+◌, ◌-◌, ◌*◌, ◌/◌, ◌%◌, ◌^◌, min, Bool, true, false, not, Option, none, some, List,
  [], ◌∷◌, ◌++◌, ◌&&◌, ◌||◌, ltb, leb, ◌==◌, if◌then◌else◌, get_or, set, length, take, drop,
  replicate, u8_mod, u16_mod, u32_mod, u64_mod, add32, sub32, add64,
}
use vibecoded_os.Prelude.Bits.{test_bit}
use vibecoded_os.Net.Bytes.{swap16, swap32, load16, load32, store}

abbrev pub socket_count : ℕ
socket_count = 8

abbrev pub buf_size : ℕ
buf_size = 4096

abbrev pub mss : ℕ
mss = 1460

abbrev pub local_port_start : ℕ
local_port_start = 49152

-- The states of Kernel/net/tcp.h, 0 to 10.
pub data TcpState : Type 0 where
  closed listen syn_sent syn_received established : TcpState
  fin_wait_1 fin_wait_2 close_wait last_ack closing time_wait : TcpState

abbrev pub is_state : TcpState → TcpState → Bool
is_state closed closed = true
is_state listen listen = true
is_state syn_sent syn_sent = true
is_state syn_received syn_received = true
is_state established established = true
is_state fin_wait_1 fin_wait_1 = true
is_state fin_wait_2 fin_wait_2 = true
is_state close_wait close_wait = true
is_state last_ack last_ack = true
is_state closing closing = true
is_state time_wait time_wait = true
is_state s t = false

-- `TcpSocket`
pub record TcpSocket : Type 0 where
  pub local_port : ℕ
  pub remote_ip : ℕ
  pub remote_port : ℕ
  pub state : TcpState
  pub snd_una : ℕ
  pub snd_nxt : ℕ
  pub rcv_nxt : ℕ
  pub iss : ℕ
  pub irs : ℕ
  pub send_buf : List ℕ
  pub send_len : ℕ
  pub send_acked : ℕ
  pub recv_buf : List ℕ
  pub recv_len : ℕ
  pub recv_read : ℕ
  pub remote_window : ℕ
  pub retrans_tick : ℕ
  pub retrans_count : ℕ
  pub used : Bool
  pub pending_close : Bool

-- `RtMemSet(s, 0, sizeof(TcpSocket))`
unfoldable pub zeroed : TcpSocket
zeroed = record {
  local_port = 0;
  remote_ip = 0;
  remote_port = 0;
  state = closed;
  snd_una = 0;
  snd_nxt = 0;
  rcv_nxt = 0;
  iss = 0;
  irs = 0;
  send_buf = replicate buf_size 0;
  send_len = 0;
  send_acked = 0;
  recv_buf = replicate buf_size 0;
  recv_len = 0;
  recv_read = 0;
  remote_window = 0;
  retrans_tick = 0;
  retrans_count = 0;
  used = false;
  pending_close = false;
}

-- `g_tcp_sockets` and `g_next_local_port`
pub record Tcp : Type 0 where
  pub sockets : List TcpSocket
  pub next_local_port : ℕ

-- What TcpSendSegment puts into the header and behind it.
pub record Segment : Type 0 where
  pub src_port : ℕ
  pub dst_port : ℕ
  pub dst_ip : ℕ
  pub seq : ℕ
  pub ack : ℕ
  pub flags : ℕ
  pub window : ℕ
  pub payload : List ℕ

abbrev pub fin : ℕ
fin = 0x01

abbrev pub syn : ℕ
syn = 0x02

abbrev pub psh : ℕ
psh = 0x08

abbrev pub ack_flag : ℕ
ack_flag = 0x10

-- `TcpSendSegment` with `TcpBuildHeader`: the window is `TCP_BUF_SIZE - s->recv_len` as u16.
unfoldable pub segment : TcpSocket → (flags : ℕ) → List ℕ → (seq ack : ℕ) → Segment
segment s flags payload seq ack = record {
  src_port = s.local_port;
  dst_port = s.remote_port;
  dst_ip = s.remote_ip;
  seq = seq;
  ack = ack;
  flags = flags;
  window = sub32 buf_size s.recv_len % u16_mod;
  payload = payload;
}

abbrev pub matches : (local_port remote_ip remote_port : ℕ) → TcpSocket → Bool
matches lp ip rp s =
    s.used
    && (s.local_port == lp
        && (if is_state s.state listen then rp == 0 else s.remote_ip == ip && s.remote_port == rp))

-- `TcpFindSocket`, from socket `i` on.
pub find_socket : (local_port remote_ip remote_port : ℕ) → List TcpSocket → ℕ → Option ℕ
find_socket lp ip rp [] i = none
find_socket lp ip rp (s ∷ ss) i =
    let rest = find_socket lp ip rp ss (i + 1) in if matches lp ip rp s then some i else rest

-- The search of `TcpAllocSocket`.
unfoldable pub find_unused : List TcpSocket → ℕ → Option ℕ
find_unused [] i = none
find_unused (s ∷ ss) i = let rest = find_unused ss (i + 1) in if s.used then rest else some i

-- `TcpSocketCreate`; -1 is `none`.
unfoldable pub socket_create : Tcp → Option ℕ × Tcp
socket_create t = elim (find_unused t.sockets 0) [
  | none ↦ (none, t)
  | some i ↦ (
    some i,
    record t { sockets = set t.sockets i (record zeroed { used = true; state = closed }) },
  )
]

-- A received segment: the fields of the header after NetSwap, and the bytes behind `data_offset`.
pub record Incoming : Type 0 where
  pub src_ip : ℕ
  pub src_port : ℕ
  pub dst_port : ℕ
  pub seq : ℕ
  pub ack : ℕ
  pub flags : ℕ
  pub window : ℕ
  pub payload : List ℕ

-- The head of `TcpHandlePacket`: `none` where it returns for want of a header.
unfoldable pub parse : (src_ip : ℕ) → List ℕ → Option Incoming
parse src_ip bytes =
    let data_offset = get_or bytes 12 0 / 16 * 4 % u8_mod in
    if ltb (length bytes) 20
    then none
    else some (record {
      src_ip = src_ip;
      src_port = swap16 (load16 bytes 0);
      dst_port = swap16 (load16 bytes 2);
      seq = swap32 (load32 bytes 4);
      ack = swap32 (load32 bytes 8);
      flags = get_or bytes 13 0;
      window = swap16 (load16 bytes 14);
      payload = drop data_offset bytes;
    })

-- `flags & TCP_ACK`, `flags & TCP_FIN`, and both of TCP_SYN and TCP_ACK.
abbrev pub has_ack : ℕ → Bool
has_ack flags = test_bit flags 4

abbrev pub has_fin : ℕ → Bool
has_fin flags = test_bit flags 0

abbrev pub has_syn_ack : ℕ → Bool
has_syn_ack flags = test_bit flags 1 && test_bit flags 4

-- `s->state == TCP_STATE_SYN_SENT`
unfoldable pub handle_syn_sent : Incoming → TcpSocket → TcpSocket × List Segment
handle_syn_sent p s =
    let s' = record s { rcv_nxt = add32 p.seq 1; irs = p.seq; snd_una = p.ack } in
    if has_syn_ack p.flags && p.ack == s.snd_nxt
    then (record s' { state = established }, segment s' ack_flag [] s'.snd_nxt s'.rcv_nxt ∷ [])
    else (s, [])

-- "Accept data if seq matches rcv_nxt", as much as there is room for.
unfoldable pub accept_data : Incoming → TcpSocket → TcpSocket
accept_data p s =
    let bytes = take (min (length p.payload) (sub32 buf_size s.recv_len)) p.payload in
    if (ltb 0 (length p.payload) && p.seq == s.rcv_nxt) && ltb 0 (length bytes)
    then record s {
      recv_buf = store s.recv_buf s.recv_len bytes;
      recv_len = add32 s.recv_len (length bytes);
      rcv_nxt = add32 s.rcv_nxt (length bytes);
    }
    else s

-- "Process ACK"
unfoldable pub process_ack : Incoming → TcpSocket → TcpSocket
process_ack p s =
    if has_ack p.flags && (ltb s.snd_una p.ack && leb p.ack s.snd_nxt)
    then record s { snd_una = p.ack }
    else s

-- The state after a FIN.
abbrev pub after_fin : Incoming → TcpSocket → TcpState
after_fin p s = elim s.state [
  | established ↦ close_wait
  | fin_wait_1 ↦ if p.ack == s.snd_nxt then time_wait else closing
  | fin_wait_2 ↦ time_wait
  | st ↦ st
]

-- "Handle incoming FIN"
unfoldable pub handle_fin : Incoming → TcpSocket → TcpSocket × List Segment
handle_fin p s =
    let s' = record s { rcv_nxt = add32 s.rcv_nxt 1 } in
    if has_fin p.flags
    then (record s' { state = after_fin p s' }, segment s' ack_flag [] s'.snd_nxt s'.rcv_nxt ∷ [])
    else (s, [])

-- "If we have pending close and all data acked, send FIN"
unfoldable pub handle_pending : TcpSocket → TcpSocket × List Segment
handle_pending s =
    if is_state s.state close_wait && s.pending_close
    then (
      record s { state = last_ack; snd_nxt = add32 s.snd_nxt 1 },
      segment s (fin + ack_flag) [] s.snd_nxt s.rcv_nxt ∷ [],
    )
    else (s, [])

-- A state that an ACK of everything sent ends.
unfoldable pub when_acked : TcpState → TcpState → Incoming → TcpSocket → TcpSocket
when_acked from to p s =
    if is_state s.state from && (has_ack p.flags && leb s.snd_nxt p.ack)
    then record s { state = to }
    else s

abbrev pub is_open : TcpState → Bool
is_open established = true
is_open fin_wait_1 = true
is_open fin_wait_2 = true
is_open close_wait = true
is_open s = false

-- The block of `TcpHandlePacket` for the open states.
unfoldable pub handle_open : Incoming → TcpSocket → TcpSocket × List Segment
handle_open p s0 =
    let s1 = process_ack p (accept_data p s0) in
    let out1 = segment s1 ack_flag [] s1.snd_nxt s1.rcv_nxt ∷ [] in
    let (s2, out2) = handle_fin p s1 in
    let (s3, out3) = handle_pending s2 in
    (when_acked closing time_wait p (when_acked last_ack closed p s3), out1 ++ (out2 ++ out3))

-- `TcpHandlePacket` at the socket that it found.
unfoldable pub handle_socket : Incoming → TcpSocket → TcpSocket × List Segment
handle_socket p s0 =
    let s = record s0 { remote_window = p.window } in
    if is_state s.state syn_sent
    then handle_syn_sent p s
    else (let (s', out) = if is_open s.state then handle_open p s else (s, []) in
        (when_acked fin_wait_1 fin_wait_2 p s', out))

abbrev pub get_socket : List TcpSocket → ℕ → TcpSocket
get_socket ss i = get_or ss i zeroed

unfoldable pub handle_packet : (src_ip : ℕ) → List ℕ → Tcp → Tcp × List Segment
handle_packet src_ip bytes t = elim (parse src_ip bytes) [
  | none ↦ (t, [])
  | some p ↦ elim (find_socket p.dst_port p.src_ip p.src_port t.sockets 0) [
    | none ↦ (t, [])
    | some i ↦
        let (s, out) = handle_socket p (get_socket t.sockets i) in
        (record t { sockets = set t.sockets i s }, out)
  ]
]

-- `TcpPoll` at one socket, at a tick: retransmission, and the reuse of a closed socket.
unfoldable pub poll_socket : (tick : ℕ) → TcpSocket → TcpSocket × List Segment
poll_socket tick s =
    let retry = record s {
      retrans_count = (s.retrans_count + 1) % u8_mod;
      retrans_tick = add64 tick 20;
    } in
    let due = leb s.retrans_tick tick && ltb s.retrans_count 5 in
    let unacked = min (sub32 s.snd_nxt s.snd_una) mss in
    if not s.used
    then (s, [])
    else if is_state s.state syn_sent
    then (if due then (retry, segment retry syn [] s.iss 0 ∷ []) else (s, []))
    else if is_state s.state established
    then (if due
        then (
          retry,
          if ltb s.snd_una s.snd_nxt
              then segment retry (psh + ack_flag) (take unacked s.send_buf) s.snd_una s.rcv_nxt ∷ []
              else [],
        )
        else (s, []))
    else if is_state s.state closed
    then (zeroed, [])
    else (s, [])

pub poll_sockets : (tick : ℕ) → List TcpSocket → List TcpSocket × List Segment
poll_sockets tick [] = ([], [])
poll_sockets tick (s ∷ ss) =
    let (s', out) = poll_socket tick s in
    let (ss', rest) = poll_sockets tick ss in (s' ∷ ss', out ++ rest)

pub poll : (tick : ℕ) → Tcp → Tcp × List Segment
poll tick t = let (ss, out) = poll_sockets tick t.sockets in (record t { sockets = ss }, out)

-- The socket as `TcpConnect` sets it up.
unfoldable pub connecting_socket : (dst_ip dst_port tick local_port : ℕ) → TcpSocket → TcpSocket
connecting_socket dst_ip dst_port tick local_port s =
    let iss = tick * 0x12345678 % u32_mod in
    record s {
      remote_ip = dst_ip;
      remote_port = dst_port;
      local_port = local_port;
      iss = iss;
      snd_una = iss;
      snd_nxt = add32 iss 1;
      rcv_nxt = 0;
      state = syn_sent;
      remote_window = buf_size;
      retrans_tick = add64 tick 20;
      retrans_count = 0;
    }

-- `TcpConnect` up to its wait: `none` is STATUS_INVALID_PARAMETER.
unfoldable pub connect_start : (sock dst_ip dst_port tick : ℕ) → Tcp → Option (Tcp × List Segment)
connect_start sock dst_ip dst_port tick t =
    let s = get_socket t.sockets sock in
    let s' = connecting_socket dst_ip dst_port tick t.next_local_port s in
    let port = (t.next_local_port + 1) % u16_mod in
    if ltb sock socket_count && (s.used && is_state s.state closed)
    then some (
      record {
        sockets = set t.sockets sock s';
        next_local_port = if ltb port local_port_start then local_port_start else port;
      },
      segment s' syn [] s'.iss 0 ∷ [],
    )
    else none

-- The end of `TcpConnect`: whether the socket was seen ESTABLISHED before the deadline; if not, it
-- is closed.
unfoldable pub connect_end : (sock : ℕ) (seen : Bool) → Tcp → Bool × Tcp
connect_end sock seen t = if seen then (true, t) else (
  false,
  record t { sockets = set t.sockets sock (record (get_socket t.sockets sock) { state = closed }) },
)

-- One round of the loop of `TcpSend`, for the bytes not yet sent: `none` where it waits for the
-- window. The number is the length of the chunk; the code returns early if Ipv4Send fails, after the
-- segment is handed over and before the socket changes.
unfoldable pub send_chunk :
    (tick : ℕ) → List ℕ → TcpSocket → Option (ℕ × (TcpSocket × List Segment))
send_chunk tick bytes s =
    let chunk = min (min (length bytes) mss) s.remote_window in
    if leb s.remote_window (sub32 s.snd_nxt s.snd_una) || chunk == 0
    then none
    else some (
      chunk,
      (
        record s {
          snd_nxt = add32 s.snd_nxt chunk;
          retrans_tick = add64 tick 20;
          retrans_count = 0;
        },
        segment s (psh + ack_flag) (take chunk bytes) s.snd_nxt s.rcv_nxt ∷ [],
      ),
    )

-- The part of `TcpRecv` that takes bytes out of the buffer, first without and then with a wait.
unfoldable pub take_received : (max_len : ℕ) → TcpSocket → List ℕ × TcpSocket
take_received max_len s =
    let copy = min max_len s.recv_len in
    (
      take copy s.recv_buf,
      record s {
        recv_buf = store s.recv_buf 0 (take (s.recv_len - copy) (drop copy s.recv_buf));
        recv_len = s.recv_len - copy;
      },
    )

-- `TcpClose` up to its wait: the FIN of an established connection.
unfoldable pub close_start : TcpSocket → TcpSocket × List Segment
close_start s =
    let s' = record s { state = fin_wait_1; pending_close = true } in
    if is_state s.state established
    then (
      record s' { snd_nxt = add32 s.snd_nxt 1 },
      segment s' (fin + ack_flag) [] s.snd_nxt s.rcv_nxt ∷ [],
    )
    else (s, [])
