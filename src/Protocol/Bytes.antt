-- ===== src/Protocol/Bytes.antt =====
-- src/protocol/control_protocol.cpp: the big-endian writers and readers, and the checked prefix
-- of a frame.
pub mod Laws
use tcpquic_proxy.Base.{ℕ, ◌+◌, ◌%◌, Bytes, ◌∷◌, get_or, bit_or}
use tcpquic_proxy.Base.Bits.{shl, shr}

-- data[i]. Every read below stands behind a test of the length.
abbrev pub at : Bytes → ℕ → ℕ
at bs i = get_or bs i 0

-- Each writer is given the bytes that are appended after it. `% 256` is the cast to uint8_t,
-- which is also `& 0xFF`.
abbrev pub write_u16_be : ℕ → Bytes → Bytes
write_u16_be v rest = (shr v 8 % 256) ∷ (v % 256) ∷ rest

abbrev pub write_u32_be : ℕ → Bytes → Bytes
write_u32_be v rest = (shr v 24 % 256) ∷ (shr v 16 % 256) ∷ (shr v 8 % 256) ∷ (v % 256) ∷ rest

abbrev pub write_u64_be : ℕ → Bytes → Bytes
write_u64_be v rest =
    (shr v 56 % 256)
    ∷ (shr v 48 % 256)
    ∷ (shr v 40 % 256)
    ∷ (shr v 32 % 256)
    ∷ (shr v 24 % 256)
    ∷ (shr v 16 % 256)
    ∷ (shr v 8 % 256)
    ∷ (v % 256)
    ∷ rest

-- ReadU16BE(data + i), and so on.
unfoldable pub read_u16_be : Bytes → ℕ → ℕ
read_u16_be bs i = bit_or (shl (at bs i) 8) (at bs (i + 1))

unfoldable pub read_u32_be : Bytes → ℕ → ℕ
read_u32_be bs i =
    bit_or (bit_or (bit_or (shl (at bs i) 24) (shl (at bs (i + 1)) 16)) (shl (at bs (i + 2)) 8))
      (at bs (i + 3))

unfoldable pub read_u64_be : Bytes → ℕ → ℕ
read_u64_be bs i =
    bit_or
      (bit_or
        (bit_or
          (bit_or
            (bit_or
              (bit_or (bit_or (shl (at bs i) 56) (shl (at bs (i + 1)) 48)) (shl (at bs (i + 2)) 40))
              (shl (at bs (i + 3)) 32))
            (shl (at bs (i + 4)) 24))
          (shl (at bs (i + 5)) 16))
        (shl (at bs (i + 6)) 8))
      (at bs (i + 7))
