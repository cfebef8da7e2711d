-- ===== src/Rpc.antt =====
-- The framing of packets: internal/accessws/rpc/codec.go (`Serialize`, `ParsePackage`) and
-- internal/matchengine/server/codec.go (`Pack`, `Unpack`), with encoding/binary and hash/crc32.
pub mod History
pub mod RoundTrips
pub mod Tests
use Prim.Native.Nat.{bit_xor}
use exchange_server.Base.{
  ℕ, zero, suc, ◌+◌, ◌*◌, ◌/◌, ◌%◌, ◌^◌, Bool, true, false, Option, none, some, List, [], ◌∷◌, ◌++◌,
  if◌then◌else◌, ◌==◌, ltb, leb, not, length, take, drop, replicate,
}

-- `PutUint16`, `PutUint32`, `PutUint64`: the lowest byte comes first.
abbrev pub word_bytes : ℕ → ℕ → List ℕ
word_bytes zero v = []
word_bytes (suc n) v = v % 256 ∷ word_bytes n (v / 256)

-- `Uint16`, `Uint32`, `Uint64`
abbrev pub read_word : List ℕ → ℕ
read_word [] = 0
read_word (b ∷ bs) = b + 256 * read_word bs

-- `data[from:from+n]`, read as a word
abbrev pub field : ℕ → ℕ → List ℕ → ℕ
field from n bytes = read_word (take n (drop from bytes))

-- `crc32.ChecksumIEEE`, bit by bit.
abbrev crc_bits : ℕ → ℕ → ℕ
crc_bits zero crc = crc
crc_bits (suc n) crc = crc_bits n (if crc % 2 == 1 then bit_xor (crc / 2) 0xEDB88320 else crc / 2)

crc_bytes : ℕ → List ℕ → ℕ
crc_bytes crc [] = crc
crc_bytes crc (b ∷ bs) = crc_bytes (crc_bits 8 (bit_xor crc b)) bs

unfoldable pub crc32 : List ℕ → ℕ
unfolding crc_bytes
crc32 bytes = bit_xor (crc_bytes 0xFFFFFFFF bytes) 0xFFFFFFFF % 2 ^ 32

pub record Package : Type 0 where
  pub pkg_type : ℕ
  pub command : ℕ
  pub sequence : ℕ
  pub req_id : ℕ
  pub body : List ℕ

unfoldable pub serialize : Package → List ℕ
serialize p =
    word_bytes 4 p.pkg_type
    ++ (word_bytes 4 p.command ++ (word_bytes 4 p.sequence ++ (word_bytes 8 p.req_id ++ p.body)))

-- `ParsePackage`
unfoldable pub parse_package : List ℕ → Option Package
parse_package bytes =
    if ltb (length bytes) 20
    then none
    else some (record {
      pkg_type = field 0 4 bytes;
      command = field 4 4 bytes;
      sequence = field 8 4 bytes;
      req_id = field 12 8 bytes;
      body = drop 20 bytes;
    })

abbrev pub rpc_pkg_magic : ℕ
rpc_pkg_magic = 0x70656562

abbrev pub rpc_pkg_head_size : ℕ
rpc_pkg_head_size = 36

-- A nil body is `none`.
pub record RpcPkg : Type 0 where
  pub magic : ℕ
  pub command : ℕ
  pub pkg_type : ℕ
  pub result : ℕ
  pub crc : ℕ
  pub sequence : ℕ
  pub req_id : ℕ
  pub body_size : ℕ
  pub ext_size : ℕ
  pub body : Option (List ℕ)

pub data RpcError : Type 0 where
  invalid_magic invalid_crc buffer_too_small : RpcError

-- `copy` into a fresh slice of `n` zero bytes.
abbrev pub copied : ℕ → List ℕ → List ℕ
copied zero body = []
copied (suc n) [] = 0 ∷ copied n []
copied (suc n) (b ∷ body) = b ∷ copied n body

abbrev pub packed_size : RpcPkg → ℕ
packed_size p = elim p.body [ none ↦ p.body_size | some body ↦ length body % 2 ^ 32 ]

abbrev pub packed_body : RpcPkg → List ℕ
packed_body p = copied (packed_size p) (elim p.body [ none ↦ [] | some body ↦ body ])

-- The packet after its checksum.
abbrev pub packed_rest : RpcPkg → List ℕ
packed_rest p =
    word_bytes 4 p.sequence
    ++ (word_bytes 8 p.req_id
        ++ (word_bytes 4 (packed_size p)
            ++ (word_bytes 2 p.ext_size ++ (replicate p.ext_size 0 ++ packed_body p))))

abbrev pub packed_crc : RpcPkg → ℕ
packed_crc p = crc32 (word_bytes 4 0 ++ packed_rest p)

unfoldable pub pack : RpcPkg → List ℕ
pack p =
    word_bytes 4 p.magic
    ++ (word_bytes 4 p.command
        ++ (word_bytes 2 p.pkg_type
            ++ (word_bytes 4 p.result ++ (word_bytes 4 (packed_crc p) ++ packed_rest p))))

-- The header as `Unpack` reads it into its receiver.
abbrev pub read_header : List ℕ → RpcPkg → RpcPkg
read_header bytes p = record p {
  magic = field 0 4 bytes;
  command = field 4 4 bytes;
  pkg_type = field 8 2 bytes;
  result = field 10 4 bytes;
  crc = field 14 4 bytes;
  sequence = field 18 4 bytes;
  req_id = field 22 8 bytes;
  body_size = field 30 4 bytes;
  ext_size = field 34 2 bytes;
}

unfoldable pub checked : List ℕ → RpcPkg → RpcPkg × Option RpcError
checked bytes p =
    let start = rpc_pkg_head_size + p.ext_size in
    if ltb (length bytes) (start + p.body_size)
    then (p, some buffer_too_small)
    else if not (crc32 (word_bytes 4 0 ++ drop 18 bytes) == p.crc)
    then (p, some invalid_crc)
    else if ltb 0 p.body_size
    then (record p { body = some (take p.body_size (drop start bytes)) }, none)
    else (p, none)

-- `Unpack`, on the receiver it writes to.
unfoldable pub unpack : List ℕ → RpcPkg → RpcPkg × Option RpcError
unfolding checked
unpack bytes p =
    if ltb (length bytes) rpc_pkg_head_size
    then (p, some buffer_too_small)
    else if not (field 0 4 bytes == rpc_pkg_magic)
    then (record p { magic = field 0 4 bytes }, some invalid_magic)
    else checked bytes (read_header bytes p)
