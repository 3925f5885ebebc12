-- ===== src/Examples/Slots.antt =====
-- src/protocol/quic_address.cpp: three connections to two peers.
use tcpquic_proxy.Base.{◌≡◌, ◌≢◌, ◌%◌, refl, List, [], ◌∷◌, All, length, get_or, arith}
use tcpquic_proxy.Base.Text.{codes, find_byte, find_byte_from}
use tcpquic_proxy.Protocol.Address.Endpoint.{
  Endpoint, endpoints, parse_endpoint_list, parse_endpoint, parse_items, items_of, trim_list_item,
  trim_left, trim_right, cut_endpoint, cut_plain, cut_bracketed, endpoint_of, read_port,
  port_digits,
}
use tcpquic_proxy.Protocol.Address.Slots.{
  ClientPaths, SlotPath, slots, slot_of, no_endpoint, expand_peers, build_client_slot_paths,
}
use tcpquic_proxy.Protocol.Address.Slots.Shares.{
  IsDialable, wanted, build_client_slot_paths-IsDialable, build_client_slot_paths-in_turn,
}

abbrev peers : List Endpoint
peers = record { host = codes "a"; port = 1 } ∷ record { host = codes "b"; port = 2 } ∷ []

abbrev config : ClientPaths
config = record { quic_paths = []; quic_connections = 3; quic_peer = codes "a:1, b:2" }

abbrev slot_a : SlotPath
slot_a = slot_of (codes "default") [] (record { host = codes "a"; port = 1 })

abbrev slot_b : SlotPath
slot_b = slot_of (codes "default") [] (record { host = codes "b"; port = 2 })

parsed : parse_endpoint_list config.quic_peer ≡ endpoints peers
unfolding parse_endpoint_list parse_items items_of trim_list_item trim_left trim_right
    parse_endpoint cut_endpoint cut_plain cut_bracketed endpoint_of read_port port_digits find_byte
    find_byte_from
parsed = refl

built : build_client_slot_paths config ≡ slots (slot_a ∷ slot_b ∷ slot_a ∷ [])
unfolding build_client_slot_paths expand_peers parse_endpoint_list parse_items items_of
    trim_list_item trim_left trim_right parse_endpoint cut_endpoint cut_plain cut_bracketed
    endpoint_of read_port port_digits find_byte find_byte_from
built = refl

build_client_slot_paths-IsDialable_example :
    All IsDialable (slot_a ∷ slot_b ∷ slot_a ∷ [])
    × (length (slot_a ∷ slot_b ∷ slot_a ∷ []) ≡ wanted config)
    × (length (slot_a ∷ slot_b ∷ slot_a ∷ []) ≢ 0)
build_client_slot_paths-IsDialable_example =
    build_client_slot_paths-IsDialable config (slot_a ∷ slot_b ∷ slot_a ∷ []) built

build_client_slot_paths-in_turn_example :
    (ss : List SlotPath) × (build_client_slot_paths config ≡ slots ss)
    × (length ss ≡ 3)
    × (get_or ss 2 slot_b
        ≡ slot_of (codes "default") [] (get_or peers (2 % length peers) no_endpoint))
build_client_slot_paths-in_turn_example =
    build_client_slot_paths-in_turn config peers 2 slot_b refl parsed (omega arith)
