-- ===== src/Net/Tcp/Reach.antt =====
-- The states that the sockets of Kernel/net/tcp.c can reach, over every sequence of calls, received
-- packets and timer polls.
use vibecoded_os.Prelude.{
  ℕ, zero, suc, ◌≡◌, refl, Bool, true, false, some, List, [], ◌∷◌, arith, set, replicate,
  Bool-cases, Option-cases, inl, inr,
}
use vibecoded_os.Net.Tcp.{
  TcpSocket, Tcp, Incoming, Segment, TcpState, closed, listen, syn_sent, syn_received, fin_wait_1,
  fin_wait_2, last_ack, closing, time_wait, buf_size, socket_count, is_open, is_state, accept_data,
  process_ack, handle_fin, handle_pending, when_acked, handle_open, handle_socket, handle_syn_sent,
  handle_packet, parse, take_received, zeroed, get_socket, find_socket, find_unused, socket_create,
  connecting_socket, connect_start, connect_end, send_chunk, close_start, poll, poll_sockets,
  poll_socket,
}

-- The states that the code ever gives a socket.
abbrev pub is_usual : TcpState → Bool
is_usual listen = false
is_usual syn_received = false
is_usual s = true

-- The states of a socket behind a FIN of its own.
abbrev pub is_finishing : TcpState → Bool
is_finishing fin_wait_1 = true
is_finishing fin_wait_2 = true
is_finishing closing = true
is_finishing time_wait = true
is_finishing last_ack = true
is_finishing s = false

pub record IsLegal (s : TcpSocket) : Type 0 where
  pub usual : is_usual s.state ≡ true
  pub pending : is_finishing s.state ≡ true → s.pending_close ≡ true
  pub unsent : s.send_buf ≡ replicate buf_size 0

accept_data-IsLegal : (p : Incoming) (s : TcpSocket) → IsLegal s → IsLegal (accept_data p s)
unfolding accept_data
accept_data-IsLegal p s v = ground arith

process_ack-IsLegal : (p : Incoming) (s : TcpSocket) → IsLegal s → IsLegal (process_ack p s)
unfolding process_ack
process_ack-IsLegal p s v = ground arith

handle_fin-IsLegal : (p : Incoming) (s : TcpSocket) → IsLegal s → IsLegal (handle_fin p s).0
unfolding handle_fin
handle_fin-IsLegal p s v = ground arith

handle_pending-IsLegal : (s : TcpSocket) → IsLegal s → IsLegal (handle_pending s).0
unfolding handle_pending
handle_pending-IsLegal s v = ground arith

when_acked-IsLegal :
    (f t : TcpState) (p : Incoming) (s : TcpSocket)
    → (is_usual f ≡ true → is_usual t ≡ true)
    → (is_finishing t ≡ true → is_finishing f ≡ true)
    → IsLegal s
    → IsLegal (when_acked f t p s)
unfolding when_acked
when_acked-IsLegal f t p s u g v = ground arith

handle_open-IsLegal : (p : Incoming) (s : TcpSocket) → IsLegal s → IsLegal (handle_open p s).0
unfolding handle_open
handle_open-IsLegal p s v =
    when_acked-IsLegal closing time_wait p _ (λ _. refl) (λ _. refl)
      (when_acked-IsLegal last_ack closed p _ (λ _. refl) (λ _. refl)
        (handle_pending-IsLegal _
          (handle_fin-IsLegal p _ (process_ack-IsLegal p _ (accept_data-IsLegal p s v)))))

handle_syn_sent-IsLegal :
    (p : Incoming) (s : TcpSocket)
    → is_state s.state syn_sent ≡ true
    → IsLegal s
    → IsLegal (handle_syn_sent p s).0
unfolding handle_syn_sent
handle_syn_sent-IsLegal p s h v = ground arith

handle_socket-IsLegal : (p : Incoming) (s : TcpSocket) → IsLegal s → IsLegal (handle_socket p s).0
unfolding handle_socket
handle_socket-IsLegal p s v =
    let s0 = record s { remote_window = p.window } in
    let v0 : IsLegal s0 = record { usual = v.usual; pending = v.pending; unsent = v.unsent } in
    elim (Bool-cases (is_state s.state syn_sent)) [
      | inl e ↦ rw e (handle_syn_sent-IsLegal p s0 e v0)
      | inr e ↦ rw e (elim (Bool-cases (is_open s.state)) [
        | inl o ↦ rw o (
            when_acked-IsLegal fin_wait_1 fin_wait_2 p _ (λ _. refl) (λ _. refl)
              (handle_open-IsLegal p s0 v0))
        | inr o ↦ rw o (when_acked-IsLegal fin_wait_1 fin_wait_2 p s0 (λ _. refl) (λ _. refl) v0)
      ])
    ]

zeroed-IsLegal : IsLegal zeroed
unfolding zeroed
zeroed-IsLegal = record { usual = refl; pending = λ e. cc; unsent = refl }

poll_socket-IsLegal : (tick : ℕ) (s : TcpSocket) → IsLegal s → IsLegal (poll_socket tick s).0
unfolding poll_socket
poll_socket-IsLegal tick s v = let z = zeroed-IsLegal in ground arith

-- Every socket of the table.
abbrev pub AllSockets : (TcpSocket → Type 0) → List TcpSocket → Type 0
AllSockets P [] = Unit {0}
AllSockets P (s ∷ ss) = P s × AllSockets P ss

module _ (P : TcpSocket → Type 0) where
  AllSockets-set :
      (ss : List TcpSocket) (i : ℕ) (s : TcpSocket)
      → AllSockets P ss
      → P s
      → AllSockets P (set ss i s)
  AllSockets-set [] i s a p = tt
  AllSockets-set (x ∷ ss) zero s a p = (p, a.1)
  AllSockets-set (x ∷ ss) (suc i) s a p = (a.0, AllSockets-set ss i s a.1 p)

  AllSockets-get : (ss : List TcpSocket) (i : ℕ) → AllSockets P ss → P zeroed → P (get_socket ss i)
  AllSockets-get [] i a z = z
  AllSockets-get (x ∷ ss) zero a z = a.0
  AllSockets-get (x ∷ ss) (suc i) a z = AllSockets-get ss i a.1 z

-- One call, packet or poll. `failing` is the end of a TcpConnect that timed out; `freeing` is TcpFreeSocket at the end of TcpClose.
pub data Step (t : Tcp) : Tcp → Type 0 where
  creating : Step t (socket_create t).1
  connecting :
      (sock dst_ip dst_port tick : ℕ) {t' : Tcp} {out : List Segment}
      → connect_start sock dst_ip dst_port tick t ≡ some (t', out)
      → Step t t'
  failing : (sock : ℕ) → Step t (connect_end sock false t).1
  sending :
      (sock tick : ℕ) (bytes : List ℕ) {n : ℕ} {s : TcpSocket} {out : List Segment}
      → send_chunk tick bytes (get_socket t.sockets sock) ≡ some (n, (s, out))
      → Step t (record t { sockets = set t.sockets sock s })
  receiving : (src_ip : ℕ) (bytes : List ℕ) → Step t (handle_packet src_ip bytes t).0
  reading :
      (sock max_len : ℕ)
      → Step t (record t {
        sockets = set t.sockets sock (take_received max_len (get_socket t.sockets sock)).1;
      })
  shutting :
      (sock : ℕ)
      → Step t
          (record t { sockets = set t.sockets sock (close_start (get_socket t.sockets sock)).0 })
  freeing : (sock : ℕ) → Step t (record t { sockets = set t.sockets sock zeroed })
  polling : (tick : ℕ) → Step t (poll tick t).0

-- `TcpInit`
abbrev pub initial : Tcp
initial = record { sockets = replicate socket_count zeroed; next_local_port = 49152 }

pub data Reach : Tcp → Type 0 where
  start : Reach initial
  next : {t u : Tcp} → Reach t → Step t u → Reach u

abbrev pub AllLegal : Tcp → Type 0
AllLegal t = AllSockets IsLegal t.sockets

legal_at : (t : Tcp) (sock : ℕ) → AllLegal t → IsLegal (get_socket t.sockets sock)
legal_at t sock a = AllSockets-get IsLegal t.sockets sock a zeroed-IsLegal

connecting-IsLegal :
    (ip port tick lp : ℕ) (s : TcpSocket)
    → is_state s.state closed ≡ true
    → IsLegal s
    → IsLegal (connecting_socket ip port tick lp s)
unfolding connecting_socket
connecting-IsLegal ip port tick lp s h v = ground arith

connect_start-AllLegal :
    (sock ip port tick : ℕ) (t : Tcp) {t' : Tcp} {out : List Segment}
    → connect_start sock ip port tick t ≡ some (t', out)
    → AllLegal t
    → AllLegal t'
unfolding connect_start
connect_start-AllLegal sock ip port tick t {t'} e a =
    let s = get_socket t.sockets sock in
    let l = legal_at t sock a in
    let same : t'.sockets
        ≡ set t.sockets sock (connecting_socket ip port tick t.next_local_port s) =
      ground arith in
    let idle : is_state s.state closed ≡ true = ground arith in
    rw same (
      AllSockets-set IsLegal t.sockets sock _ a
        (connecting-IsLegal ip port tick t.next_local_port s idle l))

poll_sockets-AllLegal :
    (tick : ℕ) (ss : List TcpSocket)
    → AllSockets IsLegal ss
    → AllSockets IsLegal (poll_sockets tick ss).0
unfolding poll_sockets
poll_sockets-AllLegal tick [] a = tt
poll_sockets-AllLegal tick (s ∷ ss) a =
    (poll_socket-IsLegal tick s a.0, poll_sockets-AllLegal tick ss a.1)

handle_packet-AllLegal :
    (ip : ℕ) (bytes : List ℕ) (t : Tcp) → AllLegal t → AllLegal (handle_packet ip bytes t).0
unfolding handle_packet
handle_packet-AllLegal ip bytes t a = elim (Option-cases (parse ip bytes)) [
  | inl e ↦ rw (e, handle_packet) a
  | inr (p, e) ↦
      rw (e, handle_packet)
        (elim (Option-cases (find_socket p.dst_port p.src_ip p.src_port t.sockets 0)) [
          | inl f ↦ rw (f, handle_packet) a
          | inr (i, f) ↦
              rw (f, handle_packet)
                (AllSockets-set IsLegal t.sockets i _ a
                  (handle_socket-IsLegal p _ (legal_at t i a)))
        ])
]

send_chunk-IsLegal :
    (tick : ℕ) (bytes : List ℕ) (s : TcpSocket) {n : ℕ} {s' : TcpSocket} {out : List Segment}
    → send_chunk tick bytes s ≡ some (n, (s', out))
    → IsLegal s
    → IsLegal s'
unfolding send_chunk
send_chunk-IsLegal tick bytes s e v = ground arith

created : IsLegal (record zeroed { used = true; state = closed })
unfolding zeroed
created = record { usual = refl; pending = λ e. cc; unsent = refl }

socket_create-AllLegal : (t : Tcp) → AllLegal t → AllLegal (socket_create t).1
unfolding socket_create
socket_create-AllLegal t a = elim (Option-cases (find_unused t.sockets 0)) [
  | inl e ↦ rw (e, socket_create) a
  | inr (i, e) ↦ rw (e, socket_create) (AllSockets-set IsLegal t.sockets i _ a created)
]

Step-AllLegal : {t u : Tcp} → Step t u → AllLegal t → AllLegal u
unfolding connect_end take_received close_start poll
Step-AllLegal {t} creating a = socket_create-AllLegal t a
Step-AllLegal {t} (connecting sock ip port tick e) a =
    connect_start-AllLegal sock ip port tick t e a
Step-AllLegal {t} (failing sock) a =
    AllSockets-set IsLegal t.sockets sock _ a
      (let l = legal_at t sock a in record { usual = refl; pending = λ h. cc; unsent = l.unsent })
Step-AllLegal {t} (sending sock tick bytes e) a =
    AllSockets-set IsLegal t.sockets sock _ a
      (send_chunk-IsLegal tick bytes (get_socket t.sockets sock) e (legal_at t sock a))
Step-AllLegal {t} (receiving ip bytes) a = handle_packet-AllLegal ip bytes t a
Step-AllLegal {t} (reading sock n) a = AllSockets-set IsLegal t.sockets sock _ a (
    let l = legal_at t sock a in record { usual = l.usual; pending = l.pending; unsent = l.unsent })
Step-AllLegal {t} (shutting sock) a =
    AllSockets-set IsLegal t.sockets sock _ a (let l = legal_at t sock a in ground arith)
Step-AllLegal {t} (freeing sock) a = AllSockets-set IsLegal t.sockets sock _ a zeroed-IsLegal
Step-AllLegal {t} (polling tick) a = poll_sockets-AllLegal tick t.sockets a

-- In every reachable table, whatever calls of several threads overlap, no socket is in LISTEN or
-- SYN_RECEIVED; a socket in FIN_WAIT_1, FIN_WAIT_2, CLOSING, TIME_WAIT or LAST_ACK has
-- `pending_close`, which only TcpClose sets; and `send_buf`, from which TcpPoll retransmits, still
-- holds only zeros.
pub Reach-AllLegal : {t : Tcp} → Reach t → AllLegal t
Reach-AllLegal start = let z = zeroed-IsLegal in (z, (z, (z, (z, (z, (z, (z, (z, tt))))))))
Reach-AllLegal (next r s) = Step-AllLegal s (Reach-AllLegal r)
