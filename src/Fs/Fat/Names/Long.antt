-- ===== src/Fs/Fat/Names/Long.antt =====
-- FatFormatLfnEntry and FatExtractLfn of fat32.c: a long name that is stored is read back.
use vibecoded_os.Prelude.{
  ℕ, zero, suc, ◌+◌, ◌-◌, ◌*◌, ◌/◌, ◌%◌, ◌^◌, ◌≤◌, ◌<◌, ◌≡◌, ◌⊎◌, refl, ◌∙◌, false, List, [], ◌∷◌,
  ◌&&◌, ◌||◌, ltb, leb, ◌==◌, if◌then◌else◌, get_or, length, u8_mod, u16_mod, u32_mod, arith,
  Bool-cases, inl, inr,
}
use vibecoded_os.Fs.Fat.{Sector, write8}
use vibecoded_os.Fs.Fat.Names.{
  lfn_offsets, lfn_char, put_chars, format_lfn_entry, get_chars, extract_chars, extract_lfn,
  lfn_entries_from, lfn_count, lfn_entries, collect_lfn,
}

-- The characters of a name from `idx` on, `n` of them.
chars_from : (n : ℕ) (name : List ℕ) (len idx : ℕ) → List ℕ
chars_from zero name len idx = []
chars_from (suc n) name len idx = lfn_char name len idx ∷ chars_from n name len (idx + 1)

-- A name of characters that are bytes and not the NUL.
abbrev pub IsName : List ℕ → Type 0
IsName name = (i : ℕ) → i < length name → (0 < get_or name i 0) × (get_or name i 0 < 256)

lfn_char-lt : (name : List ℕ) → IsName name → (idx : ℕ) → lfn_char name (length name) idx < u16_mod
unfolding lfn_char
lfn_char-lt name h idx = elim (Bool-cases (ltb idx (length name))) [
  | inl e ↦ let q = (h idx (ground (arith, e))).1 in rw e (omega (arith, q))
  | inr e ↦ rw e (ground arith)
]

word_bytes : (v : ℕ) → v < u16_mod → v % 2 ^ 8 + v / 2 ^ 8 % 2 ^ 8 * 2 ^ 8 ≡ v
word_bytes v h = omega arith

-- The same characters as the two bytes of each are read.
words_from : (n : ℕ) (name : List ℕ) (len idx : ℕ) → List ℕ
words_from zero name len idx = []
words_from (suc n) name len idx =
    let v = lfn_char name len idx in
    (v % 2 ^ 8 + v / 2 ^ 8 % 2 ^ 8 * 2 ^ 8) ∷ words_from n name len (idx + 1)

words_from_lem :
    (n : ℕ) (name : List ℕ)
    → IsName name
    → (idx : ℕ) → words_from n name (length name) idx ≡ chars_from n name (length name) idx
unfolding words_from chars_from
words_from_lem zero name h idx = refl
words_from_lem (suc n) name h idx =
    rw
      (
        word_bytes (lfn_char name (length name) idx) (lfn_char-lt name h idx),
        words_from_lem n name h (idx + 1),
      )
      refl

get_chars-format_lfn_entry :
    (name : List ℕ) (seq sum off len : ℕ)
    → get_chars lfn_offsets (format_lfn_entry name seq sum off len) ≡ words_from 13 name len off
unfolding get_chars format_lfn_entry put_chars words_from
get_chars-format_lfn_entry name seq sum off len = refl

-- The first byte of the entry is the sequence number.
format_lfn_entry-seq :
    (name : List ℕ) (seq sum off len : ℕ) → format_lfn_entry name seq sum off len 0 ≡ seq
unfolding format_lfn_entry put_chars
format_lfn_entry-seq name seq sum off len = refl

-- The part of a name from `from` to before `to`, with the NUL behind the name, laid over a buffer.
abbrev pub overlay : (name : List ℕ) (from to : ℕ) → Sector → Sector
overlay name from to buf =
    λ x. if leb from x && (ltb x to && leb x (length name)) then get_or name x 0 else buf x

get_or_end : (name : List ℕ) → get_or name (length name) 0 ≡ 0
get_or_end [] = refl
get_or_end (c ∷ cs) = get_or_end cs

overlay_step :
    (n : ℕ) (name : List ℕ) (pos : ℕ) (buf : Sector)
    → pos < length name
    → (x : ℕ)
    → overlay name (pos + 1) (pos + 1 + n) (write8 buf pos (get_or name pos 0)) x
      ≡ overlay name pos (pos + suc n) buf x
overlay_step n name pos buf h x = elim (Bool-cases (x == pos)) [
  | inl e ↦ let q : x ≡ pos = ground (arith, e) in rw q (ground (arith, h))
  | inr e ↦ ground (arith, e)
]

overlay_end :
    (n : ℕ) (name : List ℕ) (pos : ℕ) (buf : Sector)
    → pos ≡ length name
    → (x : ℕ) → write8 buf pos 0 x ≡ overlay name pos (pos + suc n) buf x
overlay_end n name pos buf h x = elim (Bool-cases (x == pos)) [
  | inl e ↦
      let q : x ≡ length name = ground (arith, e, h) in
      let z = get_or_end name in rw (h, q) (ground (arith, z))
  | inr e ↦ ground (arith, e, h)
]

extract_chars_lem :
    (n : ℕ) (name : List ℕ)
    → IsName name
    → (pos size : ℕ) (buf : Sector) → pos ≤ length name
    → length name + 1 < size
    → (x : ℕ)
    → extract_chars (chars_from n name (length name) pos) pos size buf x
      ≡ overlay name pos (pos + n) buf x
unfolding extract_chars chars_from lfn_char
extract_chars_lem zero name h pos size buf le lt x = ground arith
extract_chars_lem (suc n) name h pos size buf le lt x =
    let room : leb (size - 1) pos ≡ false = ground (arith, le, lt) in
    elim (Bool-cases (ltb pos (length name))) [
      | inl e ↦
          let c = get_or name pos 0 in
          let b = h pos (ground (arith, e)) in
          let t : (c == 0 || c == 0xffff) ≡ false = ground (arith, b) in
          let w : c % u8_mod ≡ c = omega (arith, b.1) in
          let rec =
            extract_chars_lem n name h (pos + 1) size (write8 buf pos c) (ground (arith, e)) lt x in
          rw (room, e, t, w, rec) (overlay_step n name pos buf (ground (arith, e)) x)
      | inr e ↦
          let q : pos ≡ length name = ground (arith, e, le) in
          let z : lfn_char name (length name) pos ≡ 0 = rw e (ground (arith, q)) in
          rw (room, z) (overlay_end n name pos buf q x)
    ]

-- The entry with the sequence number `k + 1`, marked as the first one in the directory or not, that
-- FatFormatLfnEntry makes from the part of a name at `k * 13`: FatExtractLfn lays exactly this part
-- over the buffer, with the NUL where the name ends in it, and changes nothing else.
pub extract_lfn-format_lfn_entry :
    (name : List ℕ)
    → IsName name
    → (k mark sum size : ℕ) (buf : Sector) → (mark ≡ 0) ⊎ (mark ≡ 0x40)
    → k < 0x3f
    → k * 13 ≤ length name
    → length name + 1 < size
    → (x : ℕ)
    → extract_lfn (format_lfn_entry name (k + 1 + mark) sum (k * 13) (length name)) size buf x
      ≡ overlay name (k * 13) (k * 13 + 13) buf x
unfolding extract_lfn
extract_lfn-format_lfn_entry name h k mark sum size buf m lt le room x =
    let seq : (k + 1 + mark) % 2 ^ 6 ≡ k + 1 = ground arith in
    let base : (k + 1 + u32_mod - 1) % u32_mod * 13 % u32_mod ≡ k * 13 = omega (arith, lt) in
    rw
      (
        format_lfn_entry-seq name (k + 1 + mark) sum (k * 13) (length name),
        seq,
        base,
        get_chars-format_lfn_entry name (k + 1 + mark) sum (k * 13) (length name),
        words_from_lem 13 name h (k * 13),
      )
      (extract_chars_lem 13 name h (k * 13) size buf le room x)

overlay_join :
    (k : ℕ) (name : List ℕ) (buf : Sector)
    → k * 13 ≤ length name
    → (x : ℕ)
    → (if leb 0 x && (ltb x (k * 13) && leb x (length name))
        then get_or name x 0
        else overlay name (k * 13) (k * 13 + 13) buf x)
      ≡ overlay name 0 (suc k * 13) buf x
overlay_join k name buf h x = ground (arith, h)

-- Behind its last character a name has no others.
get_or_past : (name : List ℕ) (x : ℕ) → length name ≤ x → get_or name x 0 ≡ 0
get_or_past [] x h = refl
get_or_past (c ∷ cs) zero h = absurd (omega (arith, h))
get_or_past (c ∷ cs) (suc x) h = get_or_past cs x (omega (arith, h))

-- The positions below `k * 13` of a buffer are the name's after `k` more entries.
collect_lfn_lem :
    (k : ℕ) (name : List ℕ)
    → IsName name
    → (sum total size : ℕ) (buf : Sector) → k ≤ 0x3f
    → k * 13 < length name + 13
    → length name + 1 < size
    → (x : ℕ)
    → collect_lfn (lfn_entries_from k name sum total) size buf x ≡ overlay name 0 (k * 13) buf x
unfolding collect_lfn lfn_entries_from
collect_lfn_lem zero name h sum total size buf b b' room x = ground arith
collect_lfn_lem (suc k) name h sum total size buf b b' room x =
    let mark : ℕ = if k + 1 == total then 0x40 else 0 in
    let m : (mark ≡ 0) ⊎ (mark ≡ 0x40) = ground arith in
    let seq : ◌≡◌ {A = ℕ} (if k + 1 == total then k + 1 + 0x40 else k + 1) (k + 1 + mark) =
      ground arith in
    let raw = format_lfn_entry name (k + 1 + mark) sum (k * 13) (length name) in
    let rest =
      collect_lfn_lem k name h sum total size (extract_lfn raw size buf) (omega arith) (omega arith)
        room x in
    let one =
      extract_lfn-format_lfn_entry name h k mark sum size buf m (omega arith) (omega arith) room
        x in
    rw (seq, rest, one) (overlay_join k name buf (omega arith) x)

-- Every name of 1 to 255 characters is written as entries from which FatExtractLfn, called on them in
-- their order with the buffer of 260 zeros that Fat32ReadDir and FatFindEntry start with, reads the
-- characters of the name, followed by zeros.
pub collect_lfn-lfn_entries :
    (name : List ℕ)
    → IsName name
    → length name ≤ 255
    → (sum x : ℕ) → collect_lfn (lfn_entries name sum) 260 (λ i. 0) x ≡ get_or name x 0
unfolding lfn_entries lfn_count
collect_lfn-lfn_entries name h b sum x =
    let k = (length name + 12) / 13 in
    collect_lfn_lem k name h sum k 260 (λ i. 0) (omega (arith, b)) (omega arith) (omega (arith, b))
      x
    ∙ elim (Bool-cases (leb (length name) x)) [
      | inl e ↦ let z = get_or_past name x (ground (arith, e)) in ground (arith, z)
      | inr e ↦ ground (arith, e)
    ]
