-- ===== src/Net/Ethernet.antt =====
-- Kernel/net/ethernet.c: the frames that go to and come from the driver of Kernel/net/e1000.c.
pub mod Frames
use vibecoded_os.Prelude.{
  ℕ, ◌+◌, ◌-◌, Bool, true, false, not, Option, none, some, List, [], ◌∷◌, ◌++◌, ltb, if◌then◌else◌,
  length, take, drop,
}
use vibecoded_os.Net.Bytes.{swap16, load16, bytes16}

-- What `EthSend` hands to E1000SendFrame; `none` is a status of failure. `stack` is what the array on
-- the stack holds behind the payload: the code does not clear it.
unfoldable pub eth_send :
    (initialized : Bool) (dst src : List ℕ) (type : ℕ) (payload stack : List ℕ) → Option (List ℕ)
eth_send initialized dst src type payload stack =
    let total = 14 + length payload in
    let n = if ltb total 60 then 60 else total in
    if not initialized
    then none
    else if ltb 1500 (length payload)
    then none
    else some (take n (dst ++ (src ++ (bytes16 (swap16 type) ++ (payload ++ stack)))))

-- What `EthReceive` makes of a frame: nothing of one without a whole header, else its type, its sender
-- and as much payload as the caller has room for.
unfoldable pub eth_receive : (max_len : ℕ) → List ℕ → Option (ℕ × (List ℕ × List ℕ))
eth_receive max_len frame =
    let rest = length frame - 14 in
    let n = if ltb max_len rest then max_len else rest in
    if ltb (length frame) 14
    then none
    else some (swap16 (load16 frame 12), (take 6 (drop 6 frame), take n (drop 14 frame)))
