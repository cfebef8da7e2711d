-- ===== src/Rpc/History.antt =====
-- internal/readhistory/server/codec.go: the framing of the history reader, whose checksum is of the
-- whole packet.
use exchange_server.Base.{
  ℕ, ◌+◌, Option, none, some, List, [], ◌++◌, if◌then◌else◌, ◌==◌, ltb, not, length, take, drop,
}
use exchange_server.Rpc.{
  RpcPkg, RpcError, invalid_magic, invalid_crc, buffer_too_small, word_bytes, field, crc32, copied,
  rpc_pkg_magic, rpc_pkg_head_size,
}

abbrev pub body_of : RpcPkg → List ℕ
body_of p = copied p.body_size (elim p.body [ none ↦ [] | some body ↦ body ])

-- The packet with a given checksum in its place.
abbrev pub with_crc : RpcPkg → ℕ → List ℕ
with_crc p crc =
    word_bytes 4 p.magic
    ++ (word_bytes 4 p.command
        ++ (word_bytes 2 p.pkg_type
            ++ (word_bytes 4 p.result
                ++ (word_bytes 4 crc
                    ++ (word_bytes 4 p.sequence
                        ++ (word_bytes 8 p.req_id
                            ++ (word_bytes 4 p.body_size
                                ++ (word_bytes 2 p.ext_size ++ body_of p))))))))

-- `Pack`, for a body below 2^32 - 36 bytes
unfoldable pub pack_history : RpcPkg → List ℕ
pack_history p = with_crc p (crc32 (with_crc p 0))

-- `Unpack` does not store the checksum in its receiver.
abbrev pub history_header : List ℕ → RpcPkg → RpcPkg
history_header bytes p = record p {
  magic = field 0 4 bytes;
  command = field 4 4 bytes;
  pkg_type = field 8 2 bytes;
  result = field 10 4 bytes;
  sequence = field 18 4 bytes;
  req_id = field 22 8 bytes;
  body_size = field 30 4 bytes;
  ext_size = field 34 2 bytes;
}

unfoldable pub unpack_history : List ℕ → RpcPkg → RpcPkg × Option RpcError
unpack_history bytes p =
    let q = history_header bytes p in
    if ltb (length bytes) rpc_pkg_head_size
    then (p, some buffer_too_small)
    else if not (field 0 4 bytes == rpc_pkg_magic)
    then (record p { magic = field 0 4 bytes }, some invalid_magic)
    else if not (crc32 bytes == field 14 4 bytes)
    then (q, some invalid_crc)
    else if not (ltb 0 q.body_size)
    then (q, none)
    else if ltb (length bytes) (rpc_pkg_head_size + q.body_size)
    then (q, some buffer_too_small)
    else (record q { body = some (take q.body_size (drop rpc_pkg_head_size bytes)) }, none)
