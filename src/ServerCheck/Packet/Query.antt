-- ===== src/ServerCheck/Packet/Query.antt =====
-- The query packet: its size and its contents.
use bee_ba.Common.{ℕ, ◌≡◌, refl, ◌∷◌, ◌++◌, length, replicate}
use bee_ba.BasisBee.Frame.{le_bytes}
use bee_ba.ServerCheck.Packet.{
  build_query_packet, query_magic, info_protocol_version, unconnected_message,
}

-- The query is the byte of an unconnected message, the magic number, the protocol version and the
-- nonce, each in little-endian order, and zeros up to 384 bytes behind the first.
pub build_query_packet_lem :
    (nonce : ℕ)
    → (build_query_packet nonce
        ≡ unconnected_message
          ∷ (le_bytes 4 query_magic
              ++ (le_bytes 2 info_protocol_version ++ (le_bytes 2 nonce ++ replicate 376 0))))
      × (length (build_query_packet nonce) ≡ 385)
unfolding build_query_packet
build_query_packet_lem nonce = (refl, refl)
