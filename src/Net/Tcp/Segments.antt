-- ===== src/Net/Tcp/Segments.antt =====
-- What single segments do to a socket of Kernel/net/tcp.c: the handshake, acknowledgements, FIN; and
-- what TcpPoll sends again.
use vibecoded_os.Prelude.{
  ℕ, zero, suc, ◌≤◌, ◌≡◌, refl, ◌≢◌, min, true, false, List, [], ◌∷◌, ◌++◌, arith, ltb, leb, ◌==◌,
  ◌&&◌, if◌then◌else◌, length, take, replicate, Bool-cases, ap, ◌∙◌, ◌⊎◌, inl, inr, add32, sub32,
}
use vibecoded_os.Net.Tcp.{
  TcpSocket, Tcp, Incoming, Segment, TcpState, closed, syn_sent, established, fin_wait_1,
  fin_wait_2, close_wait, last_ack, closing, time_wait, buf_size, mss, is_open, is_state,
  accept_data, process_ack, handle_fin, handle_pending, when_acked, handle_open, handle_socket,
  handle_syn_sent, poll, poll_sockets, poll_socket, segment, has_ack, has_fin, has_syn_ack,
  ack_flag,
}
use vibecoded_os.Net.Tcp.Reach.{IsLegal, AllSockets, Reach, Reach-AllLegal}

-- A socket in SYN_SENT becomes ESTABLISHED exactly on a segment that has SYN and ACK and acknowledges
-- the SYN it sent; it then expects the byte after the peer's number, and sends one segment, an ACK of
-- that byte without data. On any
-- other segment it stays in SYN_SENT, keeps its numbers and sends nothing.
pub handle_socket-syn_sent :
    (p : Incoming) (s : TcpSocket)
    → s.state ≡ syn_sent
    → let (s', out) = handle_socket p s in
      ((has_syn_ack p.flags ≡ true)
        × (p.ack ≡ s.snd_nxt)
        × (s'.state ≡ established)
        × (s'.rcv_nxt ≡ add32 p.seq 1)
        × (s'.snd_una ≡ s.snd_nxt)
        × (out ≡ segment s' ack_flag [] s.snd_nxt (add32 p.seq 1) ∷ []))
      ⊎ (((has_syn_ack p.flags ≡ false) ⊎ (p.ack ≢ s.snd_nxt))
          × (s'.state ≡ syn_sent)
          × (s'.rcv_nxt ≡ s.rcv_nxt)
          × (s'.snd_una ≡ s.snd_una)
          × (out ≡ []))
unfolding handle_socket handle_syn_sent segment
handle_socket-syn_sent p s h = elim (Bool-cases (has_syn_ack p.flags && p.ack == s.snd_nxt)) [
  | inl e ↦
      let k : is_state s.state syn_sent ≡ true = rw h refl in
      inl (ground arith, ground arith, ground arith, ground arith, ground arith, rw (k, e) refl)
  | inr e ↦ inr (ground arith, ground arith, ground arith, ground arith, ground arith)
]

accept_data_una :
    (p : Incoming) (s : TcpSocket)
    → ((accept_data p s).snd_una ≡ s.snd_una)
      × ((accept_data p s).snd_nxt ≡ s.snd_nxt)
      × ((accept_data p s).state ≡ s.state)
unfolding accept_data
accept_data_una p s = ground arith

process_ack_una :
    (p : Incoming) (s : TcpSocket)
    → ((process_ack p s).snd_una ≡ (
        if has_ack p.flags && (ltb s.snd_una p.ack && leb p.ack s.snd_nxt)
        then p.ack
        else s.snd_una))
      × ((process_ack p s).snd_nxt ≡ s.snd_nxt)
      × ((process_ack p s).state ≡ s.state)
unfolding process_ack
process_ack_una p s = ground arith

handle_fin_una :
    (p : Incoming) (s : TcpSocket)
    → ((handle_fin p s).0.snd_una ≡ s.snd_una) × ((handle_fin p s).0.snd_nxt ≡ s.snd_nxt)
unfolding handle_fin
handle_fin_una p s = ground arith

handle_pending_una : (s : TcpSocket) → (handle_pending s).0.snd_una ≡ s.snd_una
unfolding handle_pending
handle_pending_una s = ground arith

when_acked_una :
    (f t : TcpState) (p : Incoming) (s : TcpSocket) → (when_acked f t p s).snd_una ≡ s.snd_una
unfolding when_acked
when_acked_una f t p s = ground arith

handle_open_una :
    (p : Incoming) (s : TcpSocket)
    → (handle_open p s).0.snd_una ≡ (
        if has_ack p.flags && (ltb s.snd_una p.ack && leb p.ack s.snd_nxt)
        then p.ack
        else s.snd_una)
unfolding handle_open
handle_open_una p s =
    let s1 = process_ack p (accept_data p s) in
    let s2 = (handle_fin p s1).0 in
    let s3 = (handle_pending s2).0 in
    let s4 = when_acked last_ack closed p s3 in
    let a = accept_data_una p s in
    let b = process_ack_una p (accept_data p s) in
    when_acked_una closing time_wait p s4
    ∙ (when_acked_una last_ack closed p s3
        ∙ (handle_pending_una s2 ∙ ((handle_fin_una p s1).0 ∙ (b.0 ∙ rw (a.0, a.1) refl))))

-- Acknowledgements move the edge of what the peer has only forward, and never past what was sent: on
-- an open connection the edge takes the number of an ACK that lies after it and up to `snd_nxt`, and
-- stays where it is for every other.
pub handle_socket-snd_una :
    (p : Incoming) (s : TcpSocket)
    → is_open s.state ≡ true
    → s.snd_una ≤ s.snd_nxt
    → let s' = (handle_socket p s).0 in
      (s'.snd_una ≡ (
        if has_ack p.flags && (ltb s.snd_una p.ack && leb p.ack s.snd_nxt)
        then p.ack
        else s.snd_una))
      × (s.snd_una ≤ s'.snd_una)
      × (s'.snd_una ≤ s.snd_nxt)
unfolding handle_socket
handle_socket-snd_una p s o le =
    let s0 = record s { remote_window = p.window } in
    let a = handle_open_una p s0 in
    let w = when_acked_una fin_wait_1 fin_wait_2 p (handle_open p s0).0 in
    rw (not_syn_sent s.state o, o) (w ∙ a, ground arith, ground arith)
  where
    not_syn_sent : (st : TcpState) → is_open st ≡ true → is_state st syn_sent ≡ false
    not_syn_sent st h = ground arith

handle_fin_established :
    (p : Incoming) (s : TcpSocket)
    → s.state ≡ established
    → has_fin p.flags ≡ true
    → s.pending_close ≡ false
    → ((handle_fin p s).0.state ≡ close_wait) × ((handle_fin p s).0.pending_close ≡ false)
unfolding handle_fin
handle_fin_established p s h f np = ground arith

accept_data_pending :
    (p : Incoming) (s : TcpSocket) → (accept_data p s).pending_close ≡ s.pending_close
unfolding accept_data
accept_data_pending p s = ground arith

process_ack_pending :
    (p : Incoming) (s : TcpSocket) → (process_ack p s).pending_close ≡ s.pending_close
unfolding process_ack
process_ack_pending p s = ground arith

handle_pending_idle : (s : TcpSocket) → s.pending_close ≡ false → (handle_pending s).0 ≡ s
unfolding handle_pending
handle_pending_idle s np = ground arith

when_acked_other :
    (f t : TcpState) (p : Incoming) (s : TcpSocket)
    → is_state s.state f ≡ false
    → when_acked f t p s ≡ s
unfolding when_acked
when_acked_other f t p s h = ground arith

handle_open_fin :
    (p : Incoming) (s : TcpSocket)
    → s.state ≡ established
    → s.pending_close ≡ false
    → has_fin p.flags ≡ true
    → (handle_open p s).0.state ≡ close_wait
unfolding handle_open
handle_open_fin p s h np f =
    let s1 = process_ack p (accept_data p s) in
    let a = accept_data_una p s in
    let b = process_ack_una p (accept_data p s) in
    let q = process_ack_pending p (accept_data p s) ∙ (accept_data_pending p s ∙ np) in
    let fi = handle_fin_established p s1 (b.2 ∙ (a.2 ∙ h)) f q in
    let s2 = (handle_fin p s1).0 in
    let e = handle_pending_idle s2 fi.1 in
    let off : (g : TcpState) → is_state close_wait g ≡ false → is_state s2.state g ≡ false =
      λ g r. rw (fi.0) r in
    rw
      (
        e,
        when_acked_other last_ack closed p s2 (off last_ack refl),
        when_acked_other closing time_wait p s2 (off closing refl),
      )
      fi.0

-- A FIN closes the receive side of an ESTABLISHED connection whatever the sequence number of its
-- segment: the code does not look whether the segment is in order, so that a FIN that overtakes data
-- ends the stream before that data.
pub handle_socket-fin_any_seq :
    (p : Incoming) (s : TcpSocket)
    → s.state ≡ established
    → s.pending_close ≡ false
    → has_fin p.flags ≡ true
    → (handle_socket p s).0.state ≡ close_wait
unfolding handle_socket
handle_socket-fin_any_seq p s h np f =
    let s0 = record s { remote_window = p.window } in
    let r = handle_open_fin p s0 h np f in
    let m = (handle_open p s0).0 in
    let w : is_state m.state fin_wait_1 ≡ false = rw r refl in
    let a : is_state s.state syn_sent ≡ false = rw h refl in
    let o : is_open s.state ≡ true = rw h refl in
    rw (a, o) (rw (when_acked_other fin_wait_1 fin_wait_2 p m w) r)

take-replicate :
    (n m : ℕ)
    → take {A = ℕ} n (replicate m 0) ≡ replicate (length (take {A = ℕ} n (replicate m 0))) 0
take-replicate zero m = refl
take-replicate (suc n) zero = refl
take-replicate (suc n) (suc m) = ap (λ r. 0 ∷ r) (take-replicate n m)

-- Every segment of the list carries only zeros.
abbrev pub AllZero : List Segment → Type 0
AllZero [] = Unit {0}
AllZero (x ∷ xs) = (x.payload ≡ replicate (length x.payload) 0) × AllZero xs

AllZero-append : (xs ys : List Segment) → AllZero xs → AllZero ys → AllZero (xs ++ ys)
AllZero-append [] ys a b = b
AllZero-append (x ∷ xs) ys a b = (a.0, AllZero-append xs ys a.1 b)

poll_socket-AllZero : (tick : ℕ) (s : TcpSocket) → IsLegal s → AllZero (poll_socket tick s).1
unfolding poll_socket segment
poll_socket-AllZero tick s v =
    let u = v.unsent in
    let z = take-replicate (min (sub32 s.snd_nxt s.snd_una) mss) buf_size in
    let zs : take (min (sub32 s.snd_nxt s.snd_una) mss) s.send_buf
        ≡ replicate (length (take (min (sub32 s.snd_nxt s.snd_una) mss) s.send_buf)) 0 =
      rw u z in
    ground (arith, zs)

poll_sockets-AllZero :
    (tick : ℕ) (ss : List TcpSocket) → AllSockets IsLegal ss → AllZero (poll_sockets tick ss).1
unfolding poll_sockets
poll_sockets-AllZero tick [] a = tt
poll_sockets-AllZero tick (s ∷ ss) a =
    AllZero-append (poll_socket tick s).1 _ (poll_socket-AllZero tick s a.0)
      (poll_sockets-AllZero tick ss a.1)

-- Whatever was sent and not acknowledged, every segment that TcpPoll sends again from a reachable
-- table carries only zeros: no call copies the data it sends into `send_buf`.
pub poll-AllZero : {t : Tcp} (tick : ℕ) → Reach t → AllZero (poll tick t).1
unfolding poll
poll-AllZero {t} tick r = poll_sockets-AllZero tick t.sockets (Reach-AllLegal r)
