-- ===== src/Net/Tcp/Sending.antt =====
-- The loop of TcpSend of Kernel/net/tcp.c, and the stream of bytes that it sends.
use vibecoded_os.Prelude.{
  ℕ, ◌+◌, ◌≤◌, ◌<◌, ◌≡◌, ◌⊎◌, refl, ap, ◌∙◌, min, false, none, some, List, [], ◌∷◌, ◌++◌, arith,
  length, take, drop, Option-cases, inl, inr, add32, sub32, length-take, take-append-drop,
}
use mathlib.Core.List.{append_assoc}
use mathlib.Core.Path.{subst}
use vibecoded_os.Net.Tcp.{
  TcpSocket, Incoming, Segment, mss, handle_socket, send_chunk, segment, ack_flag, psh,
}
use vibecoded_os.Net.Tcp.Pending.{Keeps, handle_socket-Keeps}

-- What arrives at the socket while `TcpSend` waits
unfoldable pub receive_all : List Incoming → TcpSocket → TcpSocket
receive_all [] s = s
receive_all (p ∷ ps) s = receive_all ps (handle_socket p s).0

-- A look of `TcpSend` at its window: what has arrived before it, and the tick.
pub record Look : Type 0 where
  pub arrived : List Incoming
  pub tick : ℕ

-- The segments that `TcpSend` has sent, the bytes that it has not, and the socket.
pub record Sent : Type 0 where
  pub segments : List Segment
  pub rest : List ℕ
  pub socket : TcpSocket

abbrev pub prepend_segments : List Segment → Sent → Sent
prepend_segments out r = record r { segments = out ++ r.segments }

-- The loop of `TcpSend` over its looks at the window; it ends with the bytes, or with the looks where
-- it gives up: after the timeout, or because Ipv4Send fails.
unfoldable pub send_loop : List Look → (bytes : List ℕ) → TcpSocket → Sent
send_loop [] bytes s = record { segments = []; rest = bytes; socket = s }
send_loop (l ∷ ls) bytes s =
    let s' = receive_all l.arrived s in
    elim (send_chunk l.tick bytes s') [
      | none ↦ send_loop ls bytes s'
      | some (n, (t, out)) ↦ prepend_segments out (send_loop ls (drop n bytes) t)
    ]

-- The bytes of the segments in their order
unfoldable pub payloads : List Segment → List ℕ
payloads [] = []
payloads (x ∷ xs) = x.payload ++ payloads xs

-- Every segment starts at the number behind the one before, the first at `nxt`, and is neither empty
-- nor longer than a maximal segment; `last` is the number behind all.
pub data InOrder : (nxt last : ℕ) → List Segment → Type 0 where
  nothing : {nxt : ℕ} → InOrder nxt nxt []
  then_more :
      {nxt last : ℕ} {x : Segment} {xs : List Segment}
      → x.seq ≡ nxt
      → 0 < length x.payload
      → length x.payload ≤ mss
      → InOrder (add32 nxt (length x.payload)) last xs
      → InOrder nxt last (x ∷ xs)

receive_all-Keeps :
    (ps : List Incoming) (s : TcpSocket) → s.pending_close ≡ false → Keeps s (receive_all ps s)
unfolding receive_all
receive_all-Keeps [] s np = (refl, refl)
receive_all-Keeps (p ∷ ps) s np =
    let k = handle_socket-Keeps p s np in
    let k' = receive_all-Keeps ps (handle_socket p s).0 (k.1 ∙ np) in (k'.0 ∙ k.0, k'.1 ∙ k.1)

-- One round that sends
record Round (bytes : List ℕ) (s : TcpSocket) (n : ℕ) (t : TcpSocket) (out : List Segment)
    : Type 0 where
  some_bytes : 0 < n
  within : n ≤ length bytes
  one_segment : n ≤ mss
  size : n ≡ min (min (length bytes) mss) s.remote_window
  segments : out ≡ segment s (psh + ack_flag) (take n bytes) s.snd_nxt s.rcv_nxt ∷ []
  number : t.snd_nxt ≡ add32 s.snd_nxt n
  pending : t.pending_close ≡ s.pending_close

send_chunk-Round :
    (tick : ℕ) (bytes : List ℕ) (s : TcpSocket) {n : ℕ} {t : TcpSocket} {out : List Segment}
    → send_chunk tick bytes s ≡ some (n, (t, out))
    → Round bytes s n t out
unfolding send_chunk
send_chunk-Round tick bytes s e = record {
  some_bytes = ground (arith, e);
  within = ground (arith, e);
  one_segment = ground (arith, e);
  size = ground (arith, e);
  segments = ground (arith, e);
  number = ground (arith, e);
  pending = ground (arith, e);
}

send_chunk-none :
    (tick : ℕ) (bytes : List ℕ) (s : TcpSocket)
    → send_chunk tick bytes s ≡ none
    → (length bytes ≡ 0) ⊎ (s.remote_window ≤ sub32 s.snd_nxt s.snd_una)
unfolding send_chunk
send_chunk-none tick bytes s e = ground (arith, e)

-- The first look sends a segment with as much as the data, a maximal segment and the whole window allow,
-- unless there are no data or what is in flight fills the window.
pub data Prompt (bytes : List ℕ) (s : TcpSocket) (r : Sent) : Type 0 where
  sends :
      (x : Segment) (xs : List Segment)
      → r.segments ≡ x ∷ xs
      → x.payload ≡ take (min (min (length bytes) mss) s.remote_window) bytes
      → Prompt bytes s r
  no_data : length bytes ≡ 0 → Prompt bytes s r
  window_full : s.remote_window ≤ sub32 s.snd_nxt s.snd_una → Prompt bytes s r

unfoldable pub IsPrompt : List Look → List ℕ → TcpSocket → Sent → Type 0
IsPrompt [] bytes s r = r.segments ≡ []
IsPrompt (l ∷ ls) bytes s r = Prompt bytes (receive_all l.arrived s) r

-- What TcpSend sends is the stream
record IsStream (ls : List Look) (bytes : List ℕ) (s : TcpSocket) (r : Sent) : Type 0 where
  whole : payloads r.segments ++ r.rest ≡ bytes
  order : InOrder s.snd_nxt r.socket.snd_nxt r.segments

IsStream-later :
    (l : Look) (ls : List Look) (bytes : List ℕ) (s t : TcpSocket) (r : Sent)
    → t.snd_nxt ≡ s.snd_nxt
    → IsStream ls bytes t r
    → IsStream (l ∷ ls) bytes s r
IsStream-later l ls bytes s t r e h = record {
  whole = h.whole;
  order = subst (λ (n : ℕ). InOrder n r.socket.snd_nxt r.segments) e h.order;
}

IsStream-Round :
    (l : Look) (ls : List Look) (bytes : List ℕ) (s s' t : TcpSocket) (n : ℕ) (out : List Segment)
    (r : Sent)
    → s'.snd_nxt ≡ s.snd_nxt
    → Round bytes s' n t out
    → IsStream ls (drop n bytes) t r
    → IsStream (l ∷ ls) bytes s (prepend_segments out r)
unfolding payloads segment
IsStream-Round l ls bytes s s' t n out r e k h =
    let len : length (take n bytes) ≡ n =
      length-take n bytes
      ∙ (let w = k.within in let m : min n (length bytes) ≡ n = omega (arith, w) in m) in
    let first : (segment s' (psh + ack_flag) (take n bytes) s'.snd_nxt s'.rcv_nxt).seq ≡ s.snd_nxt =
      e in
    let num : t.snd_nxt ≡ add32 s.snd_nxt (length (take n bytes)) = k.number ∙ (rw (e, len) refl) in
    let b = k.some_bytes in
    let c = k.one_segment in
    rw k.segments (record {
      whole =
          append_assoc (take n bytes) (payloads r.segments) r.rest
          ∙ (ap (λ (z : List ℕ). take n bytes ++ z) h.whole ∙ take-append-drop n bytes);
      order =
          then_more first (rw len b) (rw len c)
            (subst (λ (m : ℕ). InOrder m r.socket.snd_nxt r.segments) num h.order);
    })

send_loop-IsStream :
    (ls : List Look) (bytes : List ℕ) (s : TcpSocket)
    → s.pending_close ≡ false
    → IsStream ls bytes s (send_loop ls bytes s)
unfolding send_loop payloads
send_loop-IsStream [] bytes s np = record { whole = refl; order = nothing }
send_loop-IsStream (l ∷ ls) bytes s np =
    let s' = receive_all l.arrived s in
    let k = receive_all-Keeps l.arrived s np in
    elim (Option-cases (send_chunk l.tick bytes s')) [
      | inl e ↦
          rw (e, send_loop)
            (IsStream-later l ls bytes s s' (send_loop ls bytes s') k.0
              (send_loop-IsStream ls bytes s' (k.1 ∙ np)))
      | inr (x, e) ↦
          let m = send_chunk-Round l.tick bytes s' {n = x.0} {t = x.1.0} {out = x.1.1} e in
          rw (e, send_loop)
            (IsStream-Round l ls bytes s s' x.1.0 x.0 x.1.1 (send_loop ls (drop x.0 bytes) x.1.0)
              k.0 m (send_loop-IsStream ls (drop x.0 bytes) x.1.0 (m.pending ∙ (k.1 ∙ np))))
    ]

send_loop-IsPrompt :
    (ls : List Look) (bytes : List ℕ) (s : TcpSocket) → IsPrompt ls bytes s (send_loop ls bytes s)
unfolding send_loop IsPrompt segment
send_loop-IsPrompt [] bytes s = refl
send_loop-IsPrompt (l ∷ ls) bytes s =
    let s' = receive_all l.arrived s in
    elim (Option-cases (send_chunk l.tick bytes s')) [
      | inl e ↦ elim (send_chunk-none l.tick bytes s' e) [
        | inl z ↦ no_data z
        | inr z ↦ window_full z
      ]
      | inr (x, e) ↦
          let m = send_chunk-Round l.tick bytes s' {n = x.0} {t = x.1.0} {out = x.1.1} e in
          rw (e, send_loop, m.segments)
            (sends (segment s' (psh + ack_flag) (take x.0 bytes) s'.snd_nxt s'.rcv_nxt)
              (send_loop ls (drop x.0 bytes) x.1.0).segments refl
              (ap (λ (z : ℕ). take z bytes) m.size))
    ]

-- While no close is pending on the socket, whatever arrives between its rounds, TcpSend cuts its data
-- into a stream: the payloads of its segments in their order, with what it has not sent, are the data;
-- each segment starts at the number behind the one before, the first at `snd_nxt`, which ends up behind
-- the last; and none is empty or longer than a maximal segment. Its first look at the window sends a
-- segment, with as much as the data, a maximal segment and the whole window allow, unless there are no
-- data or what is in flight fills the window.
pub send_loop_lem :
    (ls : List Look) (bytes : List ℕ) (s : TcpSocket)
    → s.pending_close ≡ false
    → let r = send_loop ls bytes s in
      (payloads r.segments ++ r.rest ≡ bytes)
      × InOrder s.snd_nxt r.socket.snd_nxt r.segments
      × IsPrompt ls bytes s r
send_loop_lem ls bytes s np =
    let h = send_loop-IsStream ls bytes s np in (h.whole, h.order, send_loop-IsPrompt ls bytes s)
