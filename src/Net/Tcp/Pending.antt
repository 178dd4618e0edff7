-- ===== src/Net/Tcp/Pending.antt =====
-- Packets of Kernel/net/tcp.c on a socket that is not being closed: the number of the next byte to send.
use vibecoded_os.Prelude.{◌≡◌, ◌∙◌, false, arith, Bool-cases, inl, inr}
use vibecoded_os.Net.Tcp.{
  TcpSocket, TcpState, Incoming, is_state, is_open, syn_sent, fin_wait_1, fin_wait_2, last_ack,
  closed, closing, time_wait, accept_data, process_ack, handle_fin, handle_pending, when_acked,
  handle_open, handle_socket, handle_syn_sent,
}

-- Packets leave the number of the next byte alone while no close is pending.
abbrev pub Keeps : TcpSocket → TcpSocket → Type 0
Keeps s t = (t.snd_nxt ≡ s.snd_nxt) × (t.pending_close ≡ s.pending_close)

accept_data-Keeps : (p : Incoming) (s : TcpSocket) → Keeps s (accept_data p s)
unfolding accept_data
accept_data-Keeps p s = ground arith

process_ack-Keeps : (p : Incoming) (s : TcpSocket) → Keeps s (process_ack p s)
unfolding process_ack
process_ack-Keeps p s = ground arith

handle_fin-Keeps : (p : Incoming) (s : TcpSocket) → Keeps s (handle_fin p s).0
unfolding handle_fin
handle_fin-Keeps p s = ground arith

handle_pending-Keeps : (s : TcpSocket) → s.pending_close ≡ false → Keeps s (handle_pending s).0
unfolding handle_pending
handle_pending-Keeps s np = ground arith

when_acked-Keeps : (f t : TcpState) (p : Incoming) (s : TcpSocket) → Keeps s (when_acked f t p s)
unfolding when_acked
when_acked-Keeps f t p s = ground arith

handle_syn_sent-Keeps : (p : Incoming) (s : TcpSocket) → Keeps s (handle_syn_sent p s).0
unfolding handle_syn_sent
handle_syn_sent-Keeps p s = ground arith

Keeps-trans : (s t u : TcpSocket) → Keeps s t → Keeps t u → Keeps s u
Keeps-trans s t u a b = (b.0 ∙ a.0, b.1 ∙ a.1)

handle_open-Keeps :
    (p : Incoming) (s : TcpSocket) → s.pending_close ≡ false → Keeps s (handle_open p s).0
unfolding handle_open
handle_open-Keeps p s np =
    let s1 = process_ack p (accept_data p s) in
    let s2 = (handle_fin p s1).0 in
    let s3 = (handle_pending s2).0 in
    let s4 = when_acked last_ack closed p s3 in
    let k1 =
      Keeps-trans s (accept_data p s) s1 (accept_data-Keeps p s)
        (process_ack-Keeps p (accept_data p s)) in
    let k2 = Keeps-trans s s1 s2 k1 (handle_fin-Keeps p s1) in
    let k3 = Keeps-trans s s2 s3 k2 (handle_pending-Keeps s2 (k2.1 ∙ np)) in
    let k4 = Keeps-trans s s3 s4 k3 (when_acked-Keeps last_ack closed p s3) in
    Keeps-trans s s4 (when_acked closing time_wait p s4) k4
      (when_acked-Keeps closing time_wait p s4)

pub handle_socket-Keeps :
    (p : Incoming) (s : TcpSocket) → s.pending_close ≡ false → Keeps s (handle_socket p s).0
unfolding handle_socket
handle_socket-Keeps p s np =
    let s0 = record s { remote_window = p.window } in
    elim (Bool-cases (is_state s.state syn_sent)) [
      | inl e ↦ rw e (handle_syn_sent-Keeps p s0)
      | inr e ↦ elim (Bool-cases (is_open s.state)) [
        | inl o ↦
            let k = handle_open-Keeps p s0 np in
            let m = (handle_open p s0).0 in
            let w = when_acked-Keeps fin_wait_1 fin_wait_2 p m in rw (e, o) (w.0 ∙ k.0, w.1 ∙ k.1)
        | inr o ↦ rw (e, o) (when_acked-Keeps fin_wait_1 fin_wait_2 p s0)
      ]
    ]
