-- ===== src/Protocol/Frame.antt =====
-- src/protocol/control_protocol.h: the constants of the control protocol, and the four bytes that
-- every frame starts with.
pub mod Laws
use tcpquic_proxy.Base.{ℕ, Bool, ◌&&◌, ◌≡◌, Option, some, ◌∷◌, ◌==◌, Bytes}
use tcpquic_proxy.Protocol.Bytes.{at}

abbrev pub magic_0 : ℕ
magic_0 = 0x54

abbrev pub magic_1 : ℕ
magic_1 = 0x51

abbrev pub version : ℕ
version = 0x01

abbrev pub cmd_open : ℕ
cmd_open = 0x01

abbrev pub cmd_open_ok : ℕ
cmd_open_ok = 0x02

abbrev pub cmd_open_fail : ℕ
cmd_open_fail = 0x03

abbrev pub cmd_speed_start : ℕ
cmd_speed_start = 0x10

abbrev pub cmd_speed_ready : ℕ
cmd_speed_ready = 0x11

abbrev pub cmd_speed_finish : ℕ
cmd_speed_finish = 0x12

abbrev pub cmd_speed_result : ℕ
cmd_speed_result = 0x13

abbrev pub cmd_speed_error : ℕ
cmd_speed_error = 0x14

abbrev pub cmd_client_hello : ℕ
cmd_client_hello = 0x20

abbrev pub addr_ipv4 : ℕ
addr_ipv4 = 0x01

abbrev pub addr_ipv6 : ℕ
addr_ipv6 = 0x02

abbrev pub addr_domain : ℕ
addr_domain = 0x03

abbrev pub flag_dns_remote : ℕ
flag_dns_remote = 0x04

-- The four bytes that an encoder pushes first.
abbrev pub header : ℕ → Bytes → Bytes
header cmd rest = magic_0 ∷ magic_1 ∷ version ∷ cmd ∷ rest

-- data[0] to data[2] are the magic and the version.
unfoldable pub has_magic : Bytes → Bool
has_magic bs = at bs 0 == magic_0 && at bs 1 == magic_1 && at bs 2 == version

-- The encoder accepts the message, and the decoder gives it back.
abbrev pub Survives : {A : Type 0} → (A → Option Bytes) → (Bytes → Option A) → A → Type 0
Survives encode decode msg = (bs : Bytes) × (encode msg ≡ some bs) × (decode bs ≡ some msg)
