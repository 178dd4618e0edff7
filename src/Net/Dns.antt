-- ===== src/Net/Dns.antt =====
-- The resolver of Kernel/net/udp.c: names, addresses in digits, and the answer of a server. A string
-- is the list of its characters without the NUL.
pub mod Names
pub mod Addresses
use vibecoded_os.Prelude.{
  ℕ, zero, suc, ◌+◌, ◌-◌, ◌*◌, ◌/◌, ◌%◌, ◌^◌, Bool, true, false, not, Option, none, some, List, [],
  ◌∷◌, ◌++◌, ◌&&◌, ◌||◌, ltb, leb, ◌==◌, if◌then◌else◌, get_or, length, u8_mod, u32_mod,
}
use vibecoded_os.Net.Bytes.{swap16, load16}

-- `while (*dot && *dot != '.') dot++;`: the label, and the rest from the dot on.
unfoldable pub cut_label : List ℕ → List ℕ × List ℕ
cut_label [] = ([], [])
cut_label (c ∷ cs) =
    let (label, rest) = cut_label cs in if c == b'.' then ([], c ∷ cs) else (c ∷ label, rest)

-- `if (*name == '.') name++;`
abbrev pub skip_dot : List ℕ → List ℕ
skip_dot [] = []
skip_dot (c ∷ cs) = if c == b'.' then cs else c ∷ cs

-- The result of `DnsEncodeName`: `bad_label` is -1, and `out_of_fuel` no behaviour of the code.
pub data Encoded : Type 0 where
  encoded : List ℕ → Encoded
  bad_label : Encoded
  out_of_fuel : Encoded

abbrev pub put_label : List ℕ → Encoded → Encoded
put_label label (encoded out) = encoded (length label ∷ (label ++ out))
put_label label bad_label = bad_label
put_label label out_of_fuel = out_of_fuel

-- `DnsEncodeName`, a round for each label.
unfoldable pub encode_loop : ℕ → List ℕ → Encoded
encode_loop zero name = out_of_fuel
encode_loop (suc fuel) [] = encoded (0 ∷ [])
encode_loop (suc fuel) (c ∷ cs) =
    let (label, rest) = cut_label (c ∷ cs) in
    let more = encode_loop fuel (skip_dot rest) in
    if length label == 0 || ltb 63 (length label) then bad_label else put_label label more

unfoldable pub encode_name : List ℕ → Encoded
encode_name name = encode_loop (suc (length name)) name

-- `DnsSkipName`, a round for each label. `fuel` bounds the rounds.
unfoldable pub skip_loop : ℕ → List ℕ → (offset len : ℕ) → ℕ
skip_loop zero buf offset len = offset
skip_loop (suc fuel) buf offset len =
    let c = get_or buf offset 0 in
    let more = skip_loop fuel buf (offset + c + 1) len in
    if ltb offset len
    then (if c == 0 then offset + 1 else if c / 64 == 3 then offset + 2 else more)
    else offset

-- Each round moves on by at least one byte, so `len` rounds are enough.
unfoldable pub skip_name : List ℕ → (offset len : ℕ) → ℕ
skip_name buf offset len = skip_loop (len - offset) buf offset len

-- The state of the loop at the head of `DnsResolve`, with its four locals.
pub record Digits : Type 0 where
  pub ip : ℕ
  pub octet : ℕ
  pub dots : ℕ
  pub valid : Bool

-- One round of it. `ip |= octet << (dots * 8)` is a sum, since the octets do not overlap.
unfoldable pub digit_step : ℕ → Digits → Digits
digit_step c d =
    let octet = d.octet * 10 + (c - b'0') in
    if leb b'0' c && leb c b'9'
    then record d { octet = octet; valid = not (ltb 255 octet) }
    else if c == b'.'
    then record d {
      ip = d.ip + d.octet * 2 ^ (d.dots * 8) % u32_mod;
      octet = 0;
      dots = d.dots + 1;
      valid = not (ltb 3 (d.dots + 1));
    }
    else record d { valid = false }

unfoldable pub digit_loop : List ℕ → Digits → Digits
digit_loop [] d = d
digit_loop (c ∷ cs) d = let rest = digit_loop cs (digit_step c d) in if d.valid then rest else d

-- The fast path of `DnsResolve`: the address of a name in digits.
unfoldable pub parse_address : List ℕ → Option ℕ
parse_address name =
    let d = digit_loop name (record { ip = 0; octet = 0; dots = 0; valid = true }) in
    if d.valid && d.dots == 3 then some (d.ip + d.octet * 2 ^ 24 % u32_mod) else none

-- The loop of `DnsResolve` over the questions: the position behind them.
unfoldable pub skip_questions : ℕ → List ℕ → (pos rlen : ℕ) → ℕ
skip_questions zero reply pos rlen = pos
skip_questions (suc n) reply pos rlen =
    let rest = skip_questions n reply (skip_name reply pos rlen + 4) rlen in
    if ltb pos rlen then rest else pos

-- The loop over the answers: the first address; 0 is the failure.
unfoldable pub find_address : ℕ → List ℕ → (pos rlen : ℕ) → ℕ
find_address zero reply pos rlen = 0
find_address (suc n) reply pos rlen =
    let at = skip_name reply pos rlen in
    let rtype = get_or reply at 0 * 256 + get_or reply (at + 1) 0 in
    let rdlen = get_or reply (at + 8) 0 * 256 + get_or reply (at + 9) 0 in
    let data_at = at + 10 in
    let rest = find_address n reply (data_at + rdlen) rlen in
    if ltb (pos + 10) rlen
    then (if ltb rlen (at + 10)
        then 0
        else if rtype == 1 && (rdlen == 4 && leb (data_at + 4) rlen)
        then get_or reply data_at 0
          + get_or reply (data_at + 1) 0 * 2 ^ 8
          + get_or reply (data_at + 2) 0 * 2 ^ 16
          + get_or reply (data_at + 3) 0 * 2 ^ 24
        else rest)
    else 0

-- The end of `DnsResolve`: what it makes of a reply of `rlen` bytes.
unfoldable pub read_reply : List ℕ → (rlen : ℕ) → ℕ
read_reply reply rlen =
    let ancount = swap16 (load16 reply 6) in
    let qdcount = swap16 (load16 reply 4) in
    if ltb rlen 12
    then 0
    else if ancount == 0
    then 0
    else find_address ancount reply (skip_questions qdcount reply 12 rlen) rlen
