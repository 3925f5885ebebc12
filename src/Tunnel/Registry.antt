-- ===== src/Tunnel/Registry.antt =====
-- src/tunnel/tunnel_registry.cpp: g_tunnelRegistry, and the sections of its functions under the lock.
-- The vectors of all connections are one list, whose elements know their connection. Pointers are
-- numbers, 0 is null, and a thread is a number. Times are left out, and the ids are counted without a
-- wrap: a process registers fewer than 2 ^ 64 tunnels.
pub mod System
pub mod Ids
pub mod Carry
pub mod Safe
use tcpquic_proxy.Base.{
  ℕ, suc, ◌+◌, ◌%◌, ◌^◌, Bool, true, false, not, ◌&&◌, ◌||◌, Option, none, some, List, [], ◌∷◌,
  ◌++◌, map, ◌==◌, if◌then◌else◌, length, ◌-◌, ◌*◌, ◌/◌, drop, ltb, Bytes,
}
use tcpquic_proxy.Base.Text.{codes, is_prefix}
use tcpquic_proxy.Base.Decimal.{to_string}
use tcpquic_proxy.Base.Select.{keep, has}

-- TqRegisteredTunnel, with its connection.
pub record Tunnel : Type 0 where
  pub connection : ℕ
  pub id : ℕ
  pub context : ℕ
  pub abort_fn : ℕ
  pub drain_fn : ℕ
  pub metadata : ℕ
  pub aborting : Bool
  pub draining : Bool
  pub abort_in_progress : Bool
  pub abort_thread : ℕ

pub record Registry : Type 0 where
  pub tunnels : List Tunnel
  pub next_id : ℕ

abbrev pub new_registry : Registry
new_registry = record { tunnels = []; next_id = 1 }

abbrev pub is_at : ℕ → ℕ → Tunnel → Bool
is_at connection context t = t.connection == connection && t.context == context

-- The loop of TqRegisterConnectionTunnel over the tunnels: one that it has replaced, or
-- hasAbortingMatch and hasSameThreadAbortingMatch.
pub data Scan : Type 0 where
  replaced : List Tunnel → Scan
  scanned : (aborting_match same_thread : Bool) → Scan

abbrev pub scan_behind : Tunnel → Scan → Scan
scan_behind t (replaced tunnels) = replaced (t ∷ tunnels)
scan_behind t (scanned aborting_match same_thread) = scanned aborting_match same_thread

unfoldable pub register_scan : ℕ → ℕ → ℕ → ℕ → ℕ → Bool → List Tunnel → Scan
register_scan connection context abort_fn drain_fn me same [] = scanned false same
register_scan connection context abort_fn drain_fn me same (t ∷ tunnels) =
    let on = register_scan connection context abort_fn drain_fn me same tunnels in
    let on_same = register_scan connection context abort_fn drain_fn me true tunnels in
    if not (is_at connection context t)
    then scan_behind t on
    else if t.aborting
    then (if t.abort_thread == me then scan_behind t on_same else scanned true same)
    else replaced (record t { abort_fn = abort_fn; drain_fn = drain_fn } ∷ tunnels)

abbrev pub new_tunnel : ℕ → ℕ → ℕ → ℕ → ℕ → Tunnel
new_tunnel connection id context abort_fn drain_fn = record {
  connection = connection;
  id = id;
  context = context;
  abort_fn = abort_fn;
  drain_fn = drain_fn;
  metadata = 0;
  aborting = false;
  draining = false;
  abort_in_progress = false;
  abort_thread = 0;
}

-- One round of TqRegisterConnectionTunnel; the Boolean says that the thread waits for a next one.
unfoldable pub register : Registry → ℕ → ℕ → ℕ → ℕ → ℕ → Registry × Bool
register r connection context abort_fn drain_fn me =
    let new = new_tunnel connection r.next_id context abort_fn drain_fn in
    if connection == 0 || context == 0 || abort_fn == 0
    then (r, false)
    else elim (register_scan connection context abort_fn drain_fn me false r.tunnels) [
      | replaced tunnels ↦ (record r { tunnels = tunnels }, false)
      | scanned aborting_match same_thread ↦
          if not aborting_match || same_thread
          then (record { tunnels = r.tunnels ++ (new ∷ []); next_id = r.next_id + 1 }, false)
          else (r, true)
    ]

-- TqUpdateConnectionTunnelMetadata
unfoldable pub set_metadata : ℕ → ℕ → ℕ → List Tunnel → List Tunnel
set_metadata connection context metadata [] = []
set_metadata connection context metadata (t ∷ tunnels) =
    let rest = set_metadata connection context metadata tunnels in
    if is_at connection context t then record t { metadata = metadata } ∷ tunnels else t ∷ rest

unfoldable pub update_metadata : Registry → ℕ → ℕ → ℕ → Registry
update_metadata r connection context metadata =
    if connection == 0 || context == 0
    then r
    else record r { tunnels = set_metadata connection context metadata r.tunnels }

-- The tests of TqUnregisterConnectionTunnel: a tunnel that another thread is aborting stays.
abbrev pub is_busy : ℕ → ℕ → ℕ → Tunnel → Bool
is_busy connection context me t =
    is_at connection context t && t.aborting && t.abort_in_progress && not (t.abort_thread == me)

abbrev pub stays : ℕ → ℕ → ℕ → Tunnel → Bool
stays connection context me t = not (is_at connection context t) || is_busy connection context me t

-- One round of TqUnregisterConnectionTunnel; the Boolean says that the thread waits for a next one.
unfoldable pub unregister : Registry → ℕ → ℕ → ℕ → Registry × Bool
unregister r connection context me = if connection == 0 || context == 0 then (r, false) else (
  record r { tunnels = keep (stays connection context me) r.tunnels },
  has (is_busy connection context me) r.tunnels,
)

-- TqCountConnectionTunnels
unfoldable pub count_tunnels : Registry → ℕ → ℕ
count_tunnels r connection =
    if connection == 0
    then 0
    else length (keep (λ t. t.connection == connection && not t.aborting) r.tunnels) % 2 ^ 32

-- A tunnel that thread `me` is to abort.
abbrev pub marked : ℕ → Tunnel → Tunnel
marked me t = record t { aborting = true; abort_in_progress = true; abort_thread = me }

abbrev pub is_idle_of : ℕ → Tunnel → Bool
is_idle_of connection t = t.connection == connection && not t.aborting

-- The first section of TqAbortConnectionTunnels, and the tunnels whose Abort is called.
unfoldable pub begin_abort_all : Registry → ℕ → ℕ → Registry × List Tunnel
begin_abort_all r connection me = if connection == 0 then (r, []) else (
  record r { tunnels = map (λ t. if is_idle_of connection t then marked me t else t) r.tunnels },
  map (marked me) (keep (is_idle_of connection) r.tunnels),
)

-- The last section, with the ids that the first one took.
unfoldable pub end_abort_all : Registry → ℕ → List ℕ → Registry
end_abort_all r connection ids = record r {
  tunnels =
      keep (λ t. not (t.connection == connection && t.aborting && has (λ i. i == t.id) ids))
        r.tunnels;
}

-- FindTunnelByIdLocked
unfoldable pub find_by_id : ℕ → List Tunnel → Option Tunnel
find_by_id id [] = none
find_by_id id (t ∷ tunnels) =
    let rest = find_by_id id tunnels in if t.id == id then some t else rest

-- What is done to the tunnel that it finds.
unfoldable pub change_by_id : ℕ → (Tunnel → Tunnel) → List Tunnel → List Tunnel
change_by_id id f [] = []
change_by_id id f (t ∷ tunnels) =
    let rest = change_by_id id f tunnels in if t.id == id then f t ∷ tunnels else t ∷ rest

-- The first section of TqAbortTunnelById, and the tunnel whose Abort is called.
unfoldable pub begin_abort_id : Registry → ℕ → ℕ → Registry × Option Tunnel
begin_abort_id r id me = elim (find_by_id id r.tunnels) [
  | none ↦ (r, none)
  | some t ↦
      if t.aborting
      then (r, none)
      else (record r { tunnels = change_by_id id (marked me) r.tunnels }, some (marked me t))
]

-- The last section of TqAbortTunnelById.
abbrev pub unmarked : Tunnel → Tunnel
unmarked t = record t { abort_in_progress = false }

unfoldable pub end_abort_id : Registry → ℕ → Registry
end_abort_id r id = record r { tunnels = change_by_id id unmarked r.tunnels }

-- The section of TqDrainTunnelById, and the tunnel whose Drain is called.
unfoldable pub begin_drain_id : Registry → ℕ → Registry × Option Tunnel
begin_drain_id r id = elim (find_by_id id r.tunnels) [
  | none ↦ (r, none)
  | some t ↦
      let draining : Tunnel → Tunnel = λ u. record u { draining = true } in
      (record r { tunnels = change_by_id id draining r.tunnels }, some (draining t))
]

-- TunnelIdText
unfoldable pub tunnel_id_text : ℕ → Bytes
tunnel_id_text id = codes "tun-" ++ to_string id

-- The loop of ParseTunnelId.
unfoldable pub id_loop : ℕ → Bytes → Option ℕ
id_loop parsed [] = some parsed
id_loop parsed (ch ∷ text) =
    let digit = ch - b'0' in
    let rest = id_loop ((parsed * 10 + digit) % 2 ^ 64) text in
    if ltb ch b'0' || ltb b'9' ch
    then none
    else if ltb ((2 ^ 64 - 1 - digit) / 10) parsed
    then none
    else rest

-- ParseTunnelId
unfoldable pub parse_tunnel_id : Bytes → Option ℕ
parse_tunnel_id text =
    if not (is_prefix (codes "tun-") text) || length text == 4
    then none
    else id_loop 0 (drop 4 text)
