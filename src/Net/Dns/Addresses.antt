-- ===== src/Net/Dns/Addresses.antt =====
-- Addresses in digits, as the head of DnsResolve of Kernel/net/udp.c reads them.
use vibecoded_os.Prelude.{
  ℕ, ◌+◌, ◌*◌, ◌/◌, ◌%◌, ◌^◌, ◌<◌, ◌≡◌, refl, ap, ◌∙◌, true, not, some, List, [], ◌∷◌, ◌++◌, arith,
  ltb, if◌then◌else◌, Bool-cases, inl, inr, u32_mod,
}
use mathlib.Core.List.{append-nil}
use vibecoded_os.Net.Dns.{digit_step, digit_loop, parse_address}

-- A number below 256 in decimal digits.
abbrev pub decimal : ℕ → List ℕ
decimal n =
    if ltb n 10
    then (b'0' + n) ∷ []
    else if ltb n 100
    then (b'0' + n / 10) ∷ (b'0' + n % 10) ∷ []
    else (b'0' + n / 100) ∷ (b'0' + n / 10 % 10) ∷ (b'0' + n % 10) ∷ []

abbrev pub dotted : (a b c d : ℕ) → List ℕ
dotted a b c d = decimal a ++ (b'.' ∷ (decimal b ++ (b'.' ∷ (decimal c ++ (b'.' ∷ decimal d)))))

digit_step_lem :
    (k ip octet dots next : ℕ)
    → k < 10
    → octet * 10 + k ≡ next
    → next < 256
    → digit_step (b'0' + k) (record { ip = ip; octet = octet; dots = dots; valid = true })
      ≡ record { ip = ip; octet = next; dots = dots; valid = true }
unfolding digit_step
digit_step_lem k ip octet dots next h e b = ground arith

digit_loop_one :
    (k ip octet dots next : ℕ) (rest : List ℕ)
    → k < 10
    → octet * 10 + k ≡ next
    → next < 256
    → digit_loop ((b'0' + k) ∷ rest) (record { ip = ip; octet = octet; dots = dots; valid = true })
      ≡ digit_loop rest (record { ip = ip; octet = next; dots = dots; valid = true })
unfolding digit_loop
digit_loop_one k ip octet dots next rest h e b = rw (digit_step_lem k ip octet dots next h e b) refl

digit_loop-decimal :
    (n ip dots : ℕ) (rest : List ℕ)
    → n < 256
    → digit_loop (decimal n ++ rest) (record { ip = ip; octet = 0; dots = dots; valid = true })
      ≡ digit_loop rest (record { ip = ip; octet = n; dots = dots; valid = true })
digit_loop-decimal n ip dots rest h = elim (Bool-cases (ltb n 10)) [
  | inl one ↦ rw one (digit_loop_one n ip 0 dots n rest (ground arith) (omega arith) h)
  | inr more ↦ elim (Bool-cases (ltb n 100)) [
    | inl two ↦
        rw (more, two)
          (digit_loop_one (n / 10) ip 0 dots (n / 10) _ (ground arith) (omega arith) (omega arith)
            ∙ digit_loop_one (n % 10) ip (n / 10) dots n rest (omega arith) (omega arith) h)
    | inr three ↦
        rw (more, three)
          (digit_loop_one (n / 100) ip 0 dots (n / 100) _ (omega arith) (omega arith) (omega arith)
            ∙ (digit_loop_one (n / 10 % 10) ip (n / 100) dots (n / 10) _ (omega arith) (omega arith)
                  (omega arith)
                ∙ digit_loop_one (n % 10) ip (n / 10) dots n rest (omega arith) (omega arith) h))
  ]
]

digit_loop-dot :
    (ip octet dots : ℕ) (rest : List ℕ)
    → dots < 3
    → digit_loop (b'.' ∷ rest) (record { ip = ip; octet = octet; dots = dots; valid = true })
      ≡ digit_loop rest (record {
        ip = ip + octet * 2 ^ (dots * 8) % u32_mod;
        octet = 0;
        dots = dots + 1;
        valid = true;
      })
unfolding digit_loop digit_step
digit_loop-dot ip octet dots rest h =
    let t : not (ltb 3 (dots + 1)) ≡ true = ground arith in rw t refl

-- The four numbers of an address, written in decimal with dots between them, are read back as the
-- address in the byte order of the packets: no query is sent for such a name.
pub parse_address-dotted :
    (a b c d : ℕ)
    → a < 256
    → b < 256
    → c < 256
    → d < 256
    → parse_address (dotted a b c d) ≡ some (a + b * 2 ^ 8 + c * 2 ^ 16 + d * 2 ^ 24)
unfolding parse_address digit_loop
parse_address-dotted a b c d la lb lc ld =
    let e0 =
      digit_loop-decimal a 0 0 (b'.' ∷ (decimal b ++ (b'.' ∷ (decimal c ++ (b'.' ∷ decimal d)))))
        la in
    let i1 = 0 + a * 2 ^ (0 * 8) % u32_mod in
    let e1 =
      digit_loop-dot 0 a 0 (decimal b ++ (b'.' ∷ (decimal c ++ (b'.' ∷ decimal d))))
        (omega arith) in
    let e2 = digit_loop-decimal b i1 1 (b'.' ∷ (decimal c ++ (b'.' ∷ decimal d))) lb in
    let i2 = i1 + b * 2 ^ (1 * 8) % u32_mod in
    let e3 = digit_loop-dot i1 b 1 (decimal c ++ (b'.' ∷ decimal d)) (omega arith) in
    let e4 = digit_loop-decimal c i2 2 (b'.' ∷ decimal d) lc in
    let i3 = i2 + c * 2 ^ (2 * 8) % u32_mod in
    let e5 = digit_loop-dot i2 c 2 (decimal d) (omega arith) in
    let e6 : digit_loop (decimal d) (record { ip = i3; octet = 0; dots = 3; valid = true })
        ≡ record { ip = i3; octet = d; dots = 3; valid = true } =
      (let n = append-nil (decimal d) in rw n at (digit_loop-decimal d i3 3 [] ld)) in
    let all = e0 ∙ (e1 ∙ (e2 ∙ (e3 ∙ (e4 ∙ (e5 ∙ e6))))) in rw all (ap some (omega arith))
