-- ===== src/Net/Tcp/Stream.antt =====
-- The receive side of Kernel/net/tcp.c: the bytes in `recv_buf` are a stream, extended by in-order
-- segments and consumed by TcpRecv.
use vibecoded_os.Prelude.{
  ℕ, zero, suc, ◌+◌, ◌-◌, ◌%◌, ◌≤◌, ◌<◌, ◌≡◌, refl, sym, min, true, false, List, [], ◌∷◌, ◌++◌,
  arith, ltb, ◌==◌, ◌&&◌, if◌then◌else◌, length, take, drop, length-take, length-drop, Bool-cases,
  ap, ◌∙◌, inl, inr, add32, sub32, u32_mod,
}
use mathlib.Core.List.{append-nil}
use vibecoded_os.Net.Bytes.{store, length-store, take-store, take-store_front}
use vibecoded_os.Net.Tcp.{
  TcpSocket, Incoming, TcpState, buf_size, is_open, is_state, syn_sent, accept_data, process_ack,
  handle_fin, handle_pending, when_acked, handle_open, handle_socket, take_received, closed,
  closing, last_ack, time_wait, fin_wait_1, fin_wait_2, has_fin,
}

-- The receive buffer is whole and holds at most its size.
pub record IsBuffered (s : TcpSocket) : Type 0 where
  pub size : length s.recv_buf ≡ buf_size
  pub fill : s.recv_len ≤ buf_size

-- The bytes received and not yet read, oldest first.
abbrev pub received : TcpSocket → List ℕ
received s = take s.recv_len s.recv_buf

-- The bytes of a segment that the socket takes: none out of order, else as many as there is room for.
abbrev pub accepted : Incoming → TcpSocket → List ℕ
accepted p s = if p.seq == s.rcv_nxt then take (buf_size - s.recv_len) p.payload else []

take-min : (n : ℕ) (xs : List ℕ) → take (min (length xs) n) xs ≡ take n xs
take-min zero [] = refl
take-min (suc n) [] = let e : min 0 (suc n) ≡ 0 = omega arith in rw e refl
take-min zero (x ∷ xs) = let e : min (suc (length xs)) zero ≡ zero = omega arith in rw e refl
take-min (suc n) (x ∷ xs) =
    let e : min (suc (length xs)) (suc n) ≡ suc (min (length xs) n) = omega arith in
    rw e (ap (λ r. x ∷ r) (take-min n xs))

nil_of_length : (xs : List ℕ) → length xs ≡ 0 → xs ≡ []
nil_of_length [] e = refl
nil_of_length (x ∷ xs) e = absurd (omega arith)

-- What `accept_data` does to the stream.
record Accepts (p : Incoming) (s s' : TcpSocket) : Type 0 where
  stream : received s' ≡ received s ++ accepted p s
  next : s'.rcv_nxt ≡ add32 s.rcv_nxt (length (accepted p s))
  len : s'.recv_len ≡ s.recv_len + length (accepted p s)
  good : IsBuffered s'

module _ (p : Incoming) (s : TcpSocket) (v : IsBuffered s) (b : s.rcv_nxt < u32_mod) where
  bytes : List ℕ
  bytes = take (buf_size - s.recv_len) p.payload

  bytes_lem : take (min (length p.payload) (sub32 buf_size s.recv_len)) p.payload ≡ bytes
  unfolding bytes
  bytes_lem =
      let f = v.fill in
      let e : sub32 buf_size s.recv_len ≡ buf_size - s.recv_len = omega arith in
      rw e (take-min (buf_size - s.recv_len) p.payload)

  bytes_fit : s.recv_len + length bytes ≤ buf_size
  unfolding bytes
  bytes_fit = let f = v.fill in omega (arith, length-take (buf_size - s.recv_len) p.payload)

  accepted_in_order : (p.seq == s.rcv_nxt) ≡ true → accepted p s ≡ bytes
  unfolding bytes
  accepted_in_order e = rw e refl

  nothing_accepted :
      ((ltb 0 (length p.payload) && p.seq == s.rcv_nxt) && ltb 0 (length bytes)) ≡ false
      → accepted p s ≡ []
  unfolding bytes
  nothing_accepted h = elim (Bool-cases (p.seq == s.rcv_nxt)) [
    | inr e ↦ rw e refl
    | inl e ↦
        rw e (nil_of_length bytes (ground (arith, length-take (buf_size - s.recv_len) p.payload)))
  ]

  accept_data-Accepts : Accepts p s (accept_data p s)
  unfolding accept_data
  accept_data-Accepts =
      rw bytes_lem
        (elim (Bool-cases
          ((ltb 0 (length p.payload) && p.seq == s.rcv_nxt) && ltb 0 (length bytes))) [
            | inr e ↦ rw e (
                let n = nothing_accepted e in
                record {
                  stream = rw n (sym (append-nil (received s)));
                  next = rw n (omega arith);
                  len = rw n (omega arith);
                  good = v;
                })
            | inl e ↦ rw e (
                let a = accepted_in_order (ground arith) in
                let fit = bytes_fit in
                let sz = v.size in
                let l : add32 s.recv_len (length bytes) ≡ s.recv_len + length bytes = omega arith in
                record {
                  stream = rw (a, l) (take-store s.recv_buf s.recv_len bytes (omega arith));
                  next = rw a refl;
                  len = rw a l;
                  good = record {
                    size = omega (arith, length-store s.recv_buf s.recv_len bytes (omega arith));
                    fill = rw l fit;
                  };
                })
          ])

-- What a stage leaves alone: the stream, and the number of the next byte.
record Keeps (s s' : TcpSocket) : Type 0 where
  buf : s'.recv_buf ≡ s.recv_buf
  len : s'.recv_len ≡ s.recv_len
  next : s'.rcv_nxt ≡ s.rcv_nxt

process_ack-Keeps : (p : Incoming) (s : TcpSocket) → Keeps s (process_ack p s)
unfolding process_ack
process_ack-Keeps p s = ground arith

when_acked-Keeps : (f t : TcpState) (p : Incoming) (s : TcpSocket) → Keeps s (when_acked f t p s)
unfolding when_acked
when_acked-Keeps f t p s = ground arith

handle_pending-Keeps : (s : TcpSocket) → Keeps s (handle_pending s).0
unfolding handle_pending
handle_pending-Keeps s = ground arith

-- The same but for the number, which a FIN takes.
record Fins (p : Incoming) (s s' : TcpSocket) : Type 0 where
  buf : s'.recv_buf ≡ s.recv_buf
  len : s'.recv_len ≡ s.recv_len
  next : s'.rcv_nxt ≡ (if has_fin p.flags then add32 s.rcv_nxt 1 else s.rcv_nxt)

handle_fin-Fins : (p : Incoming) (s : TcpSocket) → Fins p s (handle_fin p s).0
unfolding handle_fin
handle_fin-Fins p s = ground arith

handle_open-Fins : (p : Incoming) (s : TcpSocket) → Fins p (accept_data p s) (handle_open p s).0
unfolding handle_open
handle_open-Fins p s =
    let s1 = process_ack p (accept_data p s) in
    let s2 = (handle_fin p s1).0 in
    let s3 = (handle_pending s2).0 in
    let s4 = when_acked last_ack closed p s3 in
    let k1 = process_ack-Keeps p (accept_data p s) in
    let k2 = handle_fin-Fins p s1 in
    let k3 = handle_pending-Keeps s2 in
    let k4 = when_acked-Keeps last_ack closed p s3 in
    let k5 = when_acked-Keeps closing time_wait p s4 in
    record {
      buf = k5.buf ∙ (k4.buf ∙ (k3.buf ∙ (k2.buf ∙ k1.buf)));
      len = k5.len ∙ (k4.len ∙ (k3.len ∙ (k2.len ∙ k1.len)));
      next =
          k5.next
          ∙ (k4.next
              ∙ (k3.next ∙ (k2.next ∙ ap (λ n. if has_fin p.flags then add32 n 1 else n) k1.next)));
    }

-- What a segment means for the stream of an open connection: the bytes that are accepted are those
-- of an in-order segment, cut to the room in the buffer; they are appended to the bytes not yet read;
-- the number of the next byte goes up by their count, and by one more for a FIN; the buffer stays
-- whole.
pub handle_socket-received :
    (p : Incoming) (s : TcpSocket)
    → IsBuffered s
    → s.rcv_nxt < u32_mod
    → is_open s.state ≡ true
    → let s' = (handle_socket p s).0 in
      (received s' ≡ received s ++ accepted p s)
      × (s'.rcv_nxt
          ≡ (s.rcv_nxt + length (accepted p s) + (if has_fin p.flags then 1 else 0)) % u32_mod)
      × IsBuffered s'
unfolding handle_socket
handle_socket-received p s v b o =
    let s0 = record s { remote_window = p.window } in
    let a = accept_data-Accepts p s0 (record { size = v.size; fill = v.fill }) b in
    let f = handle_open-Fins p s0 in
    let k = when_acked-Keeps fin_wait_1 fin_wait_2 p (handle_open p s0).0 in
    rw (not_syn_sent s.state o, o) (joined p s (handle_open p s0).0 _ a f k)
  where
    not_syn_sent : (st : TcpState) → is_open st ≡ true → is_state st syn_sent ≡ false
    not_syn_sent st h = ground arith

    joined :
        (p : Incoming) (s m s' : TcpSocket)
        → Accepts p
            (record s { remote_window = p.window })
            (accept_data p (record s { remote_window = p.window }))
        → Fins p (accept_data p (record s { remote_window = p.window })) m
        → Keeps m s'
        → (received s' ≡ received s ++ accepted p s)
          × (s'.rcv_nxt
              ≡ (s.rcv_nxt + length (accepted p s) + (if has_fin p.flags then 1 else 0)) % u32_mod)
          × IsBuffered s'
    joined p s m s' a f k =
        let g = a.good in
        let t = a.stream in
        let z = g.size in
        let w = g.fill in
        let e1 = k.buf ∙ f.buf in
        let e2 = k.len ∙ f.len in
        let e3 = k.next ∙ f.next in
        let n = a.next in (rw (e1, e2) t, ground arith, record { size = rw e1 z; fill = rw e2 w })

take-take : (n m : ℕ) (xs : List ℕ) → n ≤ m → take n (take m xs) ≡ take n xs
take-take zero m xs h = refl
take-take (suc n) zero xs h = absurd (omega arith)
take-take (suc n) (suc m) [] h = refl
take-take (suc n) (suc m) (x ∷ xs) h = ap (λ r. x ∷ r) (take-take n m xs (omega arith))

take-nil : (n : ℕ) → take {A = ℕ} n [] ≡ []
take-nil zero = refl
take-nil (suc n) = refl

take_then_drop : (n m : ℕ) (xs : List ℕ) → n ≤ m → take n xs ++ take (m - n) (drop n xs) ≡ take m xs
take_then_drop zero m xs h = let e : m - 0 ≡ m = omega arith in rw e refl
take_then_drop (suc n) zero xs h = absurd (omega arith)
take_then_drop (suc n) (suc m) [] h = take-nil (suc m - suc n)
take_then_drop (suc n) (suc m) (x ∷ xs) h =
    let e : suc m - suc n ≡ m - n = omega arith in
    rw e (ap (λ r. x ∷ r) (take_then_drop n m xs (omega arith)))

-- TcpRecv with bytes in the buffer hands out the oldest ones, at most `max_len`, and leaves the rest
-- of the stream: what it returns and what remains are together what was there.
pub take_received_lem :
    (max_len : ℕ) (s : TcpSocket)
    → IsBuffered s
    → let (out, s') = take_received max_len s in
      (out ++ received s' ≡ received s) × (length out ≡ min max_len s.recv_len) × IsBuffered s'
unfolding take_received
take_received_lem n s v =
    let sz = v.size in
    let fl = v.fill in
    let copy = min n s.recv_len in
    let rest = take (s.recv_len - copy) (drop copy s.recv_buf) in
    let lr : length rest ≡ s.recv_len - copy = omega (
      arith,
      length-take (s.recv_len - copy) (drop copy s.recv_buf),
      length-drop copy s.recv_buf,
    ) in
    let st : take (s.recv_len - copy) (store s.recv_buf 0 rest) ≡ rest =
      take-store_front s.recv_buf rest (s.recv_len - copy) (sym lr) in
    (
      rw st (take_then_drop copy s.recv_len s.recv_buf (omega arith)),
      omega (arith, length-take copy s.recv_buf),
      record {
        size = omega (arith, length-store s.recv_buf 0 rest (omega arith));
        fill = omega arith;
      },
    )
