-- ===== src/Protocol/Frame/Laws.antt =====
-- A frame with the right magic, version and command, taken apart.
use tcpquic_proxy.Base.{ℕ, suc, ◌+◌, ◌≤◌, ◌≡◌, true, ◌++◌, arith, Bytes, length, drop}
use tcpquic_proxy.Protocol.Bytes.{at}
use tcpquic_proxy.Protocol.Bytes.Laws.{bytes_from, split_frame}
use tcpquic_proxy.Protocol.Frame.{magic_0, magic_1, version, header, has_magic}

has_magic-eq :
    (bs : Bytes)
    → has_magic bs ≡ true
    → (at bs 0 ≡ magic_0) × (at bs 1 ≡ magic_1) × (at bs 2 ≡ version)
unfolding has_magic
has_magic-eq bs m = ground arith

pub header-split :
    (k cmd : ℕ) (bs : Bytes)
    → has_magic bs ≡ true
    → at bs 3 ≡ cmd
    → 4 + k ≤ length bs
    → header cmd (bytes_from bs 4 k ++ drop (suc (suc (suc (suc k)))) bs) ≡ bs
header-split k cmd bs m c len =
    ground (arith, has_magic-eq bs m, split_frame (suc (suc (suc (suc k)))) bs (omega arith))
