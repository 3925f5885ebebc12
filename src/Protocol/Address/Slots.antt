-- ===== src/Protocol/Address/Slots.antt =====
-- src/protocol/quic_address.cpp: the slots of a client's connections to its peers.
pub mod Shares
use tcpquic_proxy.Base.{
  ℕ, zero, suc, ◌+◌, ◌%◌, Bool, true, false, Option, none, some, List, [], ◌∷◌, ◌++◌, ◌==◌,
  if◌then◌else◌, Bytes, length, is_empty, get_or, replicate, not,
}
use tcpquic_proxy.Base.Text.{codes}
use tcpquic_proxy.Protocol.Address.Endpoint.{
  Endpoint, EndpointList, endpoints, invalid_endpoint, parse_endpoint, parse_endpoint_list,
  format_endpoint,
}

-- TqQuicPathConfig
pub record QuicPath : Type 0 where
  pub name : Bytes
  pub local_address : Bytes
  pub peer : Bytes
  pub connections : ℕ

-- The fields of TqConfig that TqBuildClientSlotPaths reads.
pub record ClientPaths : Type 0 where
  pub quic_paths : List QuicPath
  pub quic_connections : ℕ
  pub quic_peer : Bytes

-- TqClientSlotPath
pub record SlotPath : Type 0 where
  pub slot_name : Bytes
  pub slot_local_address : Bytes
  pub peer_host : Bytes
  pub peer_port : ℕ
  pub peer_text : Bytes

-- The results: the slots, or the error.
pub data SlotsError : Type 0 where
  zero_path_connections : Bytes → SlotsError
  invalid_path_peer : Bytes → SlotsError
  no_slots : SlotsError
  zero_connections : SlotsError
  invalid_peer : Bytes → SlotsError
  empty_peer_list : SlotsError

pub data Slots : Type 0 where
  slots : List SlotPath → Slots
  slots_error : SlotsError → Slots

abbrev pub slot_of : Bytes → Bytes → Endpoint → SlotPath
slot_of name local_address e = record {
  slot_name = name;
  slot_local_address = local_address;
  peer_host = e.host;
  peer_port = e.port;
  peer_text = format_endpoint e;
}

-- The loop over the paths, with what it has expanded.
unfoldable pub expand_paths : List QuicPath → List SlotPath → Slots
expand_paths [] expanded = if is_empty expanded then slots_error no_slots else slots expanded
expand_paths (path ∷ paths) expanded =
    if path.connections == 0
    then slots_error (zero_path_connections path.name)
    else elim (parse_endpoint path.peer) [
      | none ↦ slots_error (invalid_path_peer path.peer)
      | some e ↦
          expand_paths paths
            (expanded ++ replicate path.connections (slot_of path.name path.local_address e))
    ]

abbrev pub no_endpoint : Endpoint
no_endpoint = record { host = []; port = 0 }

-- The loop over the connections from the i-th one on, `left` of them.
unfoldable pub expand_peers : List Endpoint → ℕ → ℕ → List SlotPath
expand_peers peers i zero = []
expand_peers peers i (suc left) =
    slot_of (codes "default") [] (get_or peers (i % length peers) no_endpoint)
    ∷ expand_peers peers (i + 1) left

-- TqBuildClientSlotPaths
unfoldable pub build_client_slot_paths : ClientPaths → Slots
build_client_slot_paths c =
    if not (is_empty c.quic_paths)
    then expand_paths c.quic_paths []
    else if c.quic_connections == 0
    then slots_error zero_connections
    else elim (parse_endpoint_list c.quic_peer) [
      | invalid_endpoint item ↦ slots_error (invalid_peer item)
      | endpoints peers ↦
          if is_empty peers
          then slots_error empty_peer_list
          else slots (expand_peers peers 0 c.quic_connections)
    ]
