-- ===== src/ServerCheck/Packet/Response.antt =====
-- The answers that `ParseResponse` accepts.
use mathlib.Core.Path.{subst}
use bee_ba.Common.{
  ℕ, ◌%◌, ◌^◌, ◌<◌, ◌≡◌, ◌↔◌, refl, ap, ◌∙◌, not, [], ◌∷◌, ◌++◌, ok, arith, All, >>=-eq-ok,
  >>-eq-ok, ok-injective, ◌==◌, ==-refl, fail_if,
}
use bee_ba.Common.Text.{Bytes}
use bee_ba.BasisBee.Frame.{le_bytes}
use bee_ba.BasisBee.Frame.Layout.{IsByte}
use bee_ba.ServerCheck.Packet.{
  PacketReader, Info, uint16, uint32, lite_net_string, unwrap_packet, parse_response,
  response_magic, bad_magic, bad_nonce,
}
use bee_ba.ServerCheck.Packet.Reader.{At, uint16-At, uint16-Number, uint32-At, uint32-Number}
use bee_ba.ServerCheck.Packet.Field.{IsTextField, lite_net_string-At, lite_net_string-Read}

-- The packet of an answer: a byte of the unconnected-message property, the magic number, the
-- protocol version, the nonce, the players and the two texts, and anything behind them.
pub record IsResponse (packet : Bytes) (nonce : ℕ) (info : Info) : Type 0 where
  pub first : ℕ
  pub name_field : Bytes
  pub motd_field : Bytes
  pub rest : Bytes
  pub property : first % 32 ≡ 8
  pub layout :
      packet
      ≡ first
        ∷ (le_bytes 4 response_magic
            ++ (le_bytes 2 info.protocol_version
                ++ (le_bytes 2 nonce
                    ++ (le_bytes 2 info.online_players
                        ++ (le_bytes 2 info.max_players ++ (name_field ++ (motd_field ++ rest)))))))
  pub is_name : IsTextField info.server_name name_field
  pub is_motd : IsTextField info.motd motd_field
  pub nonce_small : nonce < 2 ^ 16
  pub protocol_small : info.protocol_version < 2 ^ 16
  pub online_small : info.online_players < 2 ^ 16
  pub max_small : info.max_players < 2 ^ 16

unwrap_packet_iff :
    (packet payload : Bytes)
    → (unwrap_packet packet ≡ ok payload)
      ↔ ((first : ℕ) × (packet ≡ first ∷ payload) × (first % 32 ≡ 8))
unfolding unwrap_packet
unwrap_packet_iff [] payload = (λ h. cc, λ (first, e, _). cc)
unwrap_packet_iff (first ∷ rest) payload =
    (λ h. (first, ground arith, ground arith), λ (first', e, p). ground arith)

-- The readings of `ParseResponse`, one after the other.
record Readings (packet : Bytes) (nonce ms : ℕ) (info : Info) : Type 0 where
  payload : Bytes
  r1 : PacketReader
  r2 : PacketReader
  r3 : PacketReader
  r4 : PacketReader
  r5 : PacketReader
  r6 : PacketReader
  r7 : PacketReader
  opened : unwrap_packet packet ≡ ok payload
  magic : uint32 (record { buf = payload; pos = 0 }) ≡ ok (response_magic, r1)
  protocol : uint16 r1 ≡ ok (info.protocol_version, r2)
  answered : uint16 r2 ≡ ok (nonce, r3)
  online : uint16 r3 ≡ ok (info.online_players, r4)
  max_players : uint16 r4 ≡ ok (info.max_players, r5)
  name : lite_net_string r5 ≡ ok (info.server_name, r6)
  motd : lite_net_string r6 ≡ ok (info.motd, r7)
  time : info.round_trip_ms ≡ ms

of_Readings :
    (packet : Bytes) (nonce ms : ℕ) (info : Info)
    → Readings packet nonce ms info
    → parse_response packet nonce ms ≡ ok info
unfolding parse_response
of_Readings packet nonce ms info r =
    rw
      (
        r.opened,
        r.magic,
        r.protocol,
        r.answered,
        ==-refl nonce,
        r.online,
        r.max_players,
        r.name,
        r.motd,
      )
      (ground (arith, r.time))

readings :
    (packet payload : Bytes) (nonce ms magic protocol answer online max_players : ℕ)
    → (name motd : Bytes) (r1 r2 r3 r4 r5 r6 r7 : PacketReader) → unwrap_packet packet ≡ ok payload
    → uint32 (record { buf = payload; pos = 0 }) ≡ ok (magic, r1)
    → fail_if (not (magic == response_magic)) bad_magic ≡ ok tt
    → uint16 r1 ≡ ok (protocol, r2)
    → uint16 r2 ≡ ok (answer, r3)
    → fail_if (not (answer == nonce)) bad_nonce ≡ ok tt
    → uint16 r3 ≡ ok (online, r4)
    → uint16 r4 ≡ ok (max_players, r5)
    → lite_net_string r5 ≡ ok (name, r6)
    → lite_net_string r6 ≡ ok (motd, r7)
    → Readings packet nonce ms (record {
      online_players = online;
      max_players = max_players;
      protocol_version = protocol;
      server_name = name;
      motd = motd;
      round_trip_ms = ms;
    })
readings packet payload nonce ms magic protocol answer online max_players name motd r1 r2 r3 r4 r5
      r6 r7 e0 e1 g1 e2 e3 g2 e4 e5 e6 e7 =
    let good_magic : magic ≡ response_magic = ground arith in
    let good_nonce : answer ≡ nonce = ground arith in
    record {
      payload = payload;
      r1 = r1;
      r2 = r2;
      r3 = r3;
      r4 = r4;
      r5 = r5;
      r6 = r6;
      r7 = r7;
      opened = e0;
      magic = rw good_magic at e1;
      protocol = e2;
      answered = rw good_nonce at e3;
      online = e4;
      max_players = e5;
      name = e6;
      motd = e7;
      time = refl;
    }

to_Readings :
    (packet : Bytes) (nonce ms : ℕ) (info : Info)
    → parse_response packet nonce ms ≡ ok info
    → Readings packet nonce ms info
unfolding parse_response
to_Readings packet nonce ms info h =
    let (payload, opened, h1) = >>=-eq-ok (unwrap_packet packet) _ h in
    let (magic, read1, h2) = >>=-eq-ok (uint32 (record { buf = payload; pos = 0 })) _ h1 in
    let (good_magic, h3) = >>-eq-ok (fail_if (not (magic.0 == response_magic)) bad_magic) _ h2 in
    let (protocol, read2, h4) = >>=-eq-ok (uint16 magic.1) _ h3 in
    let (answer, read3, h5) = >>=-eq-ok (uint16 protocol.1) _ h4 in
    let (good_nonce, h6) = >>-eq-ok (fail_if (not (answer.0 == nonce)) bad_nonce) _ h5 in
    let (online, read4, h7) = >>=-eq-ok (uint16 answer.1) _ h6 in
    let (max_players, read5, h8) = >>=-eq-ok (uint16 online.1) _ h7 in
    let (name, read6, h9) = >>=-eq-ok (lite_net_string max_players.1) _ h8 in
    let (motd, read7, h10) = >>=-eq-ok (lite_net_string name.1) _ h9 in
    subst (Readings packet nonce ms) (ok-injective _ _ h10) (
      readings packet payload nonce ms magic.0 protocol.0 answer.0 online.0 max_players.0 name.0
        motd.0 magic.1 protocol.1 answer.1 online.1 max_players.1 name.1 motd.1 opened read1
        good_magic read2 read3 good_nonce read4 read5 read6 read7)

IsResponse-Readings :
    (packet : Bytes) (nonce ms : ℕ) (info : Info)
    → IsResponse packet nonce info
    → info.round_trip_ms ≡ ms
    → Readings packet nonce ms info
IsResponse-Readings packet nonce ms info p e =
    let start : At
        (record {
          buf =
              le_bytes 4 response_magic
              ++ (le_bytes 2 info.protocol_version
                  ++ (le_bytes 2 nonce
                      ++ (le_bytes 2 info.online_players
                          ++ (le_bytes 2 info.max_players
                              ++ (p.name_field ++ (p.motd_field ++ p.rest))))));
          pos = 0;
        })
        _ =
      record { within = omega arith; before = refl } in
    let magic = uint32-At _ response_magic _ (omega arith) start in
    let protocol = uint16-At _ info.protocol_version _ p.protocol_small magic.1 in
    let answer = uint16-At _ nonce _ p.nonce_small protocol.1 in
    let online = uint16-At _ info.online_players _ p.online_small answer.1 in
    let max_players = uint16-At _ info.max_players _ p.max_small online.1 in
    let name = lite_net_string-At _ info.server_name p.name_field _ p.is_name max_players.1 in
    let motd = lite_net_string-At _ info.motd p.motd_field p.rest p.is_motd name.2 in
    record {
      payload = _;
      r1 = _;
      r2 = _;
      r3 = _;
      r4 = _;
      r5 = _;
      r6 = _;
      r7 = _;
      opened = (unwrap_packet_iff packet _).1 (p.first, p.layout, p.property);
      magic = magic.0;
      protocol = protocol.0;
      answered = answer.0;
      online = online.0;
      max_players = max_players.0;
      name = name.1;
      motd = motd.1;
      time = e;
    }

-- The pieces of a packet, from the readings.
joined :
    (payload s1 s2 s3 s4 s5 s6 s7 b1 b2 b3 b4 b5 b6 b7 : Bytes)
    → payload ≡ b1 ++ s1
    → s1 ≡ b2 ++ s2
    → s2 ≡ b3 ++ s3
    → s3 ≡ b4 ++ s4
    → s4 ≡ b5 ++ s5
    → s5 ≡ b6 ++ s6
    → s6 ≡ b7 ++ s7
    → payload ≡ b1 ++ (b2 ++ (b3 ++ (b4 ++ (b5 ++ (b6 ++ (b7 ++ s7))))))
joined payload s1 s2 s3 s4 s5 s6 s7 b1 b2 b3 b4 b5 b6 b7 h1 h2 h3 h4 h5 h6 h7 =
    rw (h1, h2, h3, h4, h5, h6, h7) refl

Readings-IsResponse :
    (packet : Bytes) (nonce ms : ℕ) (info : Info)
    → All IsByte packet
    → Readings packet nonce ms info
    → IsResponse packet nonce info
Readings-IsResponse packet nonce ms info bytes r =
    let (first, whole, property) = (unwrap_packet_iff packet r.payload).0 r.opened in
    let payload_bytes : All IsByte r.payload = (rw whole at bytes).1 in
    let start : At (record { buf = r.payload; pos = 0 }) r.payload = record {
      within = omega arith;
      before = refl;
    } in
    let magic = uint32-Number _ r.r1 response_magic r.payload start payload_bytes r.magic in
    let protocol =
      uint16-Number r.r1 r.r2 info.protocol_version magic.rest magic.at magic.bytes r.protocol in
    let answer =
      uint16-Number r.r2 r.r3 nonce protocol.rest protocol.at protocol.bytes r.answered in
    let online =
      uint16-Number r.r3 r.r4 info.online_players answer.rest answer.at answer.bytes r.online in
    let max_players =
      uint16-Number r.r4 r.r5 info.max_players online.rest online.at online.bytes r.max_players in
    let name =
      lite_net_string-Read r.r5 r.r6 info.server_name max_players.rest max_players.at
        max_players.bytes r.name in
    let motd = lite_net_string-Read r.r6 r.r7 info.motd name.rest name.at name.bytes r.motd in
    record {
      first = first;
      name_field = name.field;
      motd_field = motd.field;
      rest = motd.rest;
      property = property;
      layout =
          whole
          ∙ ap (◌∷◌ first) (
              joined r.payload magic.rest protocol.rest answer.rest online.rest max_players.rest
                name.rest motd.rest _ _ _ _ _ _ _ magic.split protocol.split answer.split
                online.split max_players.split name.split motd.split);
      is_name = name.is_field;
      is_motd = motd.is_field;
      nonce_small = answer.bound;
      protocol_small = protocol.bound;
      online_small = online.bound;
      max_small = max_players.bound;
    }

-- For a packet of bytes, `ParseResponse` succeeds exactly when the first byte has the property of
-- an unconnected message in its low five bits and the rest begins with the response's magic
-- number, a protocol version, the expected nonce, the two player counts and the fields of two
-- texts, each an absent text or a UTF-8 text behind its length plus one. It returns what these
-- say, and the round trip it is given; what follows the fields is ignored.
pub parse_response_iff :
    (packet : Bytes) (nonce ms : ℕ) (info : Info)
    → All IsByte packet
    → (parse_response packet nonce ms ≡ ok info)
      ↔ (IsResponse packet nonce info × (info.round_trip_ms ≡ ms))
parse_response_iff packet nonce ms info bytes = (
  λ h.
      let r = to_Readings packet nonce ms info h in
      (Readings-IsResponse packet nonce ms info bytes r, r.time),
  λ (p, e). of_Readings packet nonce ms info (IsResponse-Readings packet nonce ms info p e),
)
