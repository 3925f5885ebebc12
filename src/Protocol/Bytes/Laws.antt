-- ===== src/Protocol/Bytes/Laws.antt =====
-- The big-endian readers and writers of src/protocol/control_protocol.cpp undo one another.
use tcpquic_proxy.Base.{
  ℕ, zero, suc, ◌+◌, ◌*◌, ◌^◌, ◌≤◌, ◌<◌, ◌≡◌, ◌%◌, ◌/◌, refl, ap, sym, ◌∙◌, [], ◌∷◌, ◌++◌, arith,
  Bytes, IsByte, IsBytes, length, take, drop, take-append-drop, bit_or,
}
use tcpquic_proxy.Base.Bits.{shl, bit_or-shl}
use tcpquic_proxy.Protocol.Bytes.{
  at, write_u16_be, write_u32_be, write_u64_be, read_u16_be, read_u32_be, read_u64_be,
}

pub at-IsByte : (bs : Bytes) (i : ℕ) → IsBytes bs → IsByte (at bs i)
at-IsByte [] i h = omega arith
at-IsByte (b ∷ bs) zero h = h.0
at-IsByte (b ∷ bs) (suc i) h = at-IsByte bs i h.1

-- Four bytes or-ed together are a sum.
join_u32 :
    (a b c d : ℕ)
    → IsByte b
    → IsByte c
    → IsByte d
    → bit_or (bit_or (bit_or (shl a 24) (shl b 16)) (shl c 8)) d
      ≡ a * 2 ^ 24 + b * 2 ^ 16 + c * 2 ^ 8 + d
join_u32 a b c d hb hc hd = ground (
  arith,
  bit_or-shl 24 a (shl b 16) (omega arith),
  bit_or-shl 16 (a * 256 + b) (shl c 8) (omega arith),
  bit_or-shl 8 (a * 65536 + b * 256 + c) d (omega arith),
)

-- Eight bytes, as the or of a high and a low half.
join_u64 :
    (a b c d e f g h : ℕ)
    → IsByte b
    → IsByte c
    → IsByte d
    → IsByte e
    → IsByte f
    → IsByte g
    → IsByte h
    → bit_or
        (bit_or
          (bit_or
            (bit_or
              (bit_or (bit_or (bit_or (shl a 56) (shl b 48)) (shl c 40)) (shl d 32))
              (shl e 24))
            (shl f 16))
          (shl g 8))
        h
      ≡ a * 2 ^ 56 + b * 2 ^ 48 + c * 2 ^ 40 + d * 2 ^ 32 + e * 2 ^ 24 + f * 2 ^ 16 + g * 2 ^ 8 + h
join_u64 a b c d e f g h hb hc hd he hf hg hh =
    let n2 : ℕ = a * 256 + b in
    let n3 : ℕ = n2 * 256 + c in
    let n4 : ℕ = n3 * 256 + d in
    let n5 : ℕ = n4 * 256 + e in
    let n6 : ℕ = n5 * 256 + f in
    let n7 : ℕ = n6 * 256 + g in
    ground (
      arith,
      bit_or-shl 56 a (shl b 48) (omega arith),
      bit_or-shl 48 n2 (shl c 40) (omega arith),
      bit_or-shl 40 n3 (shl d 32) (omega arith),
      bit_or-shl 32 n4 (shl e 24) (omega arith),
      bit_or-shl 24 n5 (shl f 16) (omega arith),
      bit_or-shl 16 n6 (shl g 8) (omega arith),
      bit_or-shl 8 n7 h (omega arith),
    )

pub read_u16_be-sum :
    (bs : Bytes) (i : ℕ) → IsBytes bs → read_u16_be bs i ≡ at bs i * 256 + at bs (i + 1)
unfolding read_u16_be
read_u16_be-sum bs i h = bit_or-shl 8 (at bs i) (at bs (i + 1)) (at-IsByte bs (i + 1) h)

pub read_u32_be-sum :
    (bs : Bytes) (i : ℕ)
    → IsBytes bs
    → read_u32_be bs i
      ≡ at bs i * 2 ^ 24 + at bs (i + 1) * 2 ^ 16 + at bs (i + 2) * 2 ^ 8 + at bs (i + 3)
unfolding read_u32_be
read_u32_be-sum bs i h =
    join_u32 _ _ _ _ (at-IsByte bs (i + 1) h) (at-IsByte bs (i + 2) h) (at-IsByte bs (i + 3) h)

pub read_u64_be-sum :
    (bs : Bytes) (i : ℕ)
    → IsBytes bs
    → read_u64_be bs i
      ≡ at bs i * 2 ^ 56
        + at bs (i + 1) * 2 ^ 48
        + at bs (i + 2) * 2 ^ 40
        + at bs (i + 3) * 2 ^ 32
        + at bs (i + 4) * 2 ^ 24
        + at bs (i + 5) * 2 ^ 16
        + at bs (i + 6) * 2 ^ 8
        + at bs (i + 7)
unfolding read_u64_be
read_u64_be-sum bs i h =
    join_u64 _ _ _ _ _ _ _ _ (at-IsByte bs (i + 1) h) (at-IsByte bs (i + 2) h)
      (at-IsByte bs (i + 3) h) (at-IsByte bs (i + 4) h) (at-IsByte bs (i + 5) h)
      (at-IsByte bs (i + 6) h) (at-IsByte bs (i + 7) h)

-- Writing what was read gives the bytes again.
pub write_u16_be-read :
    (bs rest : Bytes) (i : ℕ)
    → IsBytes bs
    → write_u16_be (read_u16_be bs i) rest ≡ at bs i ∷ at bs (i + 1) ∷ rest
write_u16_be-read bs rest i h =
    ground (arith, read_u16_be-sum bs i h, at-IsByte bs i h, at-IsByte bs (i + 1) h)

pub write_u32_be-read :
    (bs rest : Bytes) (i : ℕ)
    → IsBytes bs
    → write_u32_be (read_u32_be bs i) rest
      ≡ at bs i ∷ at bs (i + 1) ∷ at bs (i + 2) ∷ at bs (i + 3) ∷ rest
write_u32_be-read bs rest i h = ground (
  arith,
  read_u32_be-sum bs i h,
  at-IsByte bs i h,
  at-IsByte bs (i + 1) h,
  at-IsByte bs (i + 2) h,
  at-IsByte bs (i + 3) h,
)

u64_split :
    (a b c d e f g h : ℕ)
    → IsByte a
    → IsByte b
    → IsByte c
    → IsByte d
    → IsByte e
    → IsByte f
    → IsByte g
    → IsByte h
    → (rest : Bytes)
    → write_u64_be
        (a * 2 ^ 56
          + b * 2 ^ 48
          + c * 2 ^ 40
          + d * 2 ^ 32
          + e * 2 ^ 24
          + f * 2 ^ 16
          + g * 2 ^ 8
          + h)
        rest
      ≡ a ∷ b ∷ c ∷ d ∷ e ∷ f ∷ g ∷ h ∷ rest
u64_split a b c d e f g h ha hb hc hd he hf hg hh rest = ground arith

pub write_u64_be-read :
    (bs rest : Bytes) (i : ℕ)
    → IsBytes bs
    → write_u64_be (read_u64_be bs i) rest
      ≡ at bs i
        ∷ at bs (i + 1)
        ∷ at bs (i + 2)
        ∷ at bs (i + 3)
        ∷ at bs (i + 4)
        ∷ at bs (i + 5)
        ∷ at bs (i + 6)
        ∷ at bs (i + 7)
        ∷ rest
write_u64_be-read bs rest i h =
    ap (λ v. write_u64_be v rest) (read_u64_be-sum bs i h)
    ∙ u64_split _ _ _ _ _ _ _ _ (at-IsByte bs i h) (at-IsByte bs (i + 1) h) (at-IsByte bs (i + 2) h)
        (at-IsByte bs (i + 3) h) (at-IsByte bs (i + 4) h) (at-IsByte bs (i + 5) h)
        (at-IsByte bs (i + 6) h) (at-IsByte bs (i + 7) h) rest

-- The bytes from position i on, n of them.
abbrev pub bytes_from : Bytes → ℕ → ℕ → Bytes
bytes_from bs i zero = []
bytes_from bs i (suc n) = at bs i ∷ bytes_from bs (suc i) n

bytes_from-cons : (b : ℕ) (bs : Bytes) (i n : ℕ) → bytes_from (b ∷ bs) (suc i) n ≡ bytes_from bs i n
bytes_from-cons b bs i zero = refl
bytes_from-cons b bs i (suc n) = ap (◌∷◌ (at bs i)) (bytes_from-cons b bs (suc i) n)

take-bytes_from : (n : ℕ) (bs : Bytes) → n ≤ length bs → take n bs ≡ bytes_from bs 0 n
take-bytes_from zero bs h = refl
take-bytes_from (suc n) [] h = absurd (omega arith)
take-bytes_from (suc n) (b ∷ bs) h =
    ap (◌∷◌ b) (take-bytes_from n bs (omega arith) ∙ sym (bytes_from-cons b bs 0 n))

-- A frame of at least n bytes is its first n bytes, one by one, and the rest.
pub split_frame : (n : ℕ) (bs : Bytes) → n ≤ length bs → bytes_from bs 0 n ++ drop n bs ≡ bs
split_frame n bs h = rw (← take-bytes_from n bs h) (take-append-drop n bs)

pub at-append : (pre rest : Bytes) (k : ℕ) → at (pre ++ rest) (length pre + k) ≡ at rest k
at-append [] rest k = ground arith
at-append (b ∷ pre) rest k = ground (arith, at-append pre rest k)

-- A field read behind a prefix of its offset's length is the field that was written.
pub read-write_u16 :
    (pre rest : Bytes) (v : ℕ)
    → v < 2 ^ 16
    → read_u16_be (pre ++ write_u16_be v rest) (length pre) ≡ v
unfolding read_u16_be
read-write_u16 pre rest v h =
    let ws = write_u16_be v rest in
    ground (
      arith,
      at-append pre ws 0,
      at-append pre ws 1,
      bit_or-shl 8 (at ws 0) (at ws 1) (omega arith),
    )

pub read-write_u32 :
    (pre rest : Bytes) (v : ℕ)
    → v < 2 ^ 32
    → read_u32_be (pre ++ write_u32_be v rest) (length pre) ≡ v
unfolding read_u32_be
read-write_u32 pre rest v h =
    let ws = write_u32_be v rest in
    ground (
      arith,
      at-append pre ws 0,
      at-append pre ws 1,
      at-append pre ws 2,
      at-append pre ws 3,
      join_u32 (at ws 0) (at ws 1) (at ws 2) (at ws 3) (omega arith) (omega arith) (omega arith),
    )

u64_bytes :
    (v : ℕ)
    → v < 2 ^ 64
    → v / 2 ^ 56 % 256 * 2 ^ 56
        + v / 2 ^ 48 % 256 * 2 ^ 48
        + v / 2 ^ 40 % 256 * 2 ^ 40
        + v / 2 ^ 32 % 256 * 2 ^ 32
        + v / 2 ^ 24 % 256 * 2 ^ 24
        + v / 2 ^ 16 % 256 * 2 ^ 16
        + v / 2 ^ 8 % 256 * 2 ^ 8
        + v % 256
      ≡ v
u64_bytes v h = omega arith

pub read-write_u64 :
    (pre rest : Bytes) (v : ℕ)
    → v < 2 ^ 64
    → read_u64_be (pre ++ write_u64_be v rest) (length pre) ≡ v
unfolding read_u64_be
read-write_u64 pre rest v h =
    let ws = write_u64_be v rest in
    ground (
      arith,
      at-append pre ws 0,
      at-append pre ws 1,
      at-append pre ws 2,
      at-append pre ws 3,
      at-append pre ws 4,
      at-append pre ws 5,
      at-append pre ws 6,
      at-append pre ws 7,
      u64_bytes v h,
      join_u64 (at ws 0) (at ws 1) (at ws 2) (at ws 3) (at ws 4) (at ws 5) (at ws 6) (at ws 7)
          (omega arith) (omega arith) (omega arith) (omega arith) (omega arith) (omega arith)
          (omega arith),
    )

-- A buffer of one byte more than n is its first n bytes and that byte.
pub split_last : (n : ℕ) (bs : Bytes) → length bs ≡ n + 1 → take n bs ++ at bs n ∷ [] ≡ bs
split_last zero [] h = absurd (omega arith)
split_last zero (b ∷ []) h = refl
split_last zero (b ∷ c ∷ bs) h = absurd (omega arith)
split_last (suc n) [] h = absurd (omega arith)
split_last (suc n) (b ∷ bs) h = ap (◌∷◌ b) (split_last n bs (omega arith))

pub at-drop : (m n : ℕ) (bs : Bytes) → at (drop m bs) n ≡ at bs (m + n)
at-drop zero n bs = ground arith
at-drop (suc m) n [] = ground arith
at-drop (suc m) n (b ∷ bs) = ground (arith, at-drop m n bs)
