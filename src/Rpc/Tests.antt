-- ===== src/Rpc/Tests.antt =====
-- Runs of the framing at concrete packets.
use exchange_server.Base.{none, some, [], ◌∷◌, ◌≡◌, refl, arith}
use exchange_server.Text.{codes}
use exchange_server.Rpc.{
  Package, serialize, parse_package, RpcPkg, pack, unpack, crc32, crc_bytes, rpc_pkg_magic,
  invalid_crc,
}
use exchange_server.Rpc.History.{pack_history, unpack_history}
use exchange_server.Rpc.RoundTrips.{unpacked, parse_package-serialize, unpack-pack}

-- The check value of CRC-32.
crc32-digits : crc32 (codes "123456789") ≡ 0xCBF43926
unfolding crc32 crc_bytes
crc32-digits = refl

abbrev request : Package
request = record { pkg_type = 0; command = 203; sequence = 70000; req_id = 5; body = codes "{}" }

parse_package-serialize_example : parse_package (serialize request) ≡ some request
parse_package-serialize_example =
    parse_package-serialize request (omega arith) (omega arith) (omega arith) (omega arith)

parse_package-short : parse_package (1 ∷ 2 ∷ []) ≡ none
unfolding parse_package
parse_package-short = refl

abbrev receiver : RpcPkg
receiver = record {
  magic = 0;
  command = 0;
  pkg_type = 0;
  result = 0;
  crc = 0;
  sequence = 0;
  req_id = 0;
  body_size = 0;
  ext_size = 0;
  body = none;
}

abbrev packet : RpcPkg
packet = record receiver {
  magic = rpc_pkg_magic;
  command = 201;
  sequence = 9;
  ext_size = 2;
  body = some (codes "[]");
}

unpack-pack_example : unpack (pack packet) receiver ≡ (unpacked packet (codes "[]") receiver, none)
unpack-pack_example =
    unpack-pack packet receiver (codes "[]") (omega arith) refl (omega arith) (omega arith)
      (omega arith) (omega arith) (omega arith) (omega arith)

-- What the history reader packs it does not take back: the checksum that `Unpack` computes is of
-- the packet with its checksum in it.
unpack_history-pack_history :
    (unpack_history (pack_history (record packet { body_size = 2; ext_size = 0 })) receiver).1
    ≡ some invalid_crc
unfolding unpack_history pack_history crc32 crc_bytes
unpack_history-pack_history = refl
