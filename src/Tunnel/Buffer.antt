-- ===== src/Tunnel/Buffer.antt =====
-- src/tunnel/relay_buffer.cpp: the buffers of one TqRelayBufferBudget, one function for each access to
-- its atomics. The bytes of a buffer are left out.
pub mod System
pub mod Covered
use tcpquic_proxy.Base.{
  ℕ, ◌+◌, ◌-◌, ◌%◌, ◌^◌, Bool, true, false, not, ◌&&◌, ◌||◌, Option, none, some, ltb, leb, ◌==◌,
  if◌then◌else◌,
}

-- TqRelayBufferBudget
pub record Budget : Type 0 where
  pub pending : ℕ
  pub max : ℕ
  pub allocate_count : ℕ

abbrev pub new_budget : ℕ → Budget
new_budget max = record { pending = 0; max = max; allocate_count = 0 }

-- TqRelayBuffer
pub record Buffer : Type 0 where
  pub capacity : ℕ
  pub used : ℕ

unfoldable pub set_length : Buffer → ℕ → Buffer
set_length b len = record b { used = if ltb b.capacity len then b.capacity else len }

-- TqBufferHandle; `has_budget` says that Budget is not null.
pub record Handle : Type 0 where
  pub buffer : Option Buffer
  pub has_budget : Bool
  pub reserved : ℕ

abbrev pub no_handle : Handle
no_handle = record { buffer = none; has_budget = false; reserved = 0 }

-- PendingBufferBytes.fetch_sub
unfoldable pub release : Budget → ℕ → Budget
release b bytes = record b { pending = (b.pending + (2 ^ 64 - bytes)) % 2 ^ 64 }

-- TqBufferHandle::reset
unfoldable pub reset : Budget → Handle → Budget × Handle
reset b h = elim h.buffer [
  | none ↦ (b, record h { has_budget = false; reserved = 0 })
  | some _ ↦ (if h.has_budget && ltb 0 h.reserved then release b h.reserved else b, no_handle)
]

-- The move constructor: the new handle, and the other.
unfoldable pub move_from : Handle → Handle × Handle
move_from other = (other, no_handle)

-- The assignment of another handle: this handle, and the other.
unfoldable pub assign : Budget → Handle → Handle → Budget × Handle × Handle
assign b h other = ((reset b h).0, other, no_handle)

pub data AcquireFailure : Type 0 where
  no_failure : AcquireFailure
  pending_bytes_limit : AcquireFailure
  allocation_failure : AcquireFailure

-- The tests of TqAllocateRelayBuffer in front of its loop: a return without a buffer, or the loop.
pub data Admission : Type 0 where
  returned : AcquireFailure → Admission
  looping : ℕ → Admission

unfoldable pub begin : Option Budget → ℕ → Admission
begin budget bytes =
    if bytes == 0
    then returned no_failure
    else elim budget [ none ↦ returned allocation_failure | some b ↦ looping b.pending ]

-- A round of the loop, with what the weak exchange fails on without a reason: no room, a next round
-- with the value that was read, or the bytes are reserved.
pub data Round : Type 0 where
  no_room : AcquireFailure → Round
  again : ℕ → Round
  taken : Round

unfoldable pub reserve_round : Budget → ℕ → ℕ → Bool → Budget × Round
reserve_round b bytes current spurious =
    let sum = (current + bytes) % 2 ^ 64 in
    if ltb b.max sum
    then (b, no_room pending_bytes_limit)
    else if b.pending == current && not spurious
    then (record b { pending = sum }, taken)
    else (b, again b.pending)

-- TqAllocateRelayBuffer behind the loop, with what TqAllocBytes and new have returned.
unfoldable pub allocate : Budget → ℕ → Bool → Bool → Budget × Handle × AcquireFailure
allocate b bytes has_bytes has_buffer =
    let whole : Buffer = record { capacity = bytes; used = 0 } in
    let counted : Budget = record b { allocate_count = (b.allocate_count + 1) % 2 ^ 64 } in
    if not has_bytes || not has_buffer
    then (release b bytes, no_handle, allocation_failure)
    else (counted, record { buffer = some whole; has_budget = true; reserved = bytes }, no_failure)
