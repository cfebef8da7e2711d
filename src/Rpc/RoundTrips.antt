-- ===== src/Rpc/RoundTrips.antt =====
-- Packets that are written and then read: `Serialize` with `ParsePackage`, `Pack` with `Unpack`.
use exchange_server.Base.{
  ℕ, zero, suc, ◌+◌, ◌*◌, ◌/◌, ◌%◌, ◌^◌, ◌<◌, ◌≡◌, refl, sym, ap, ◌∙◌, true, false, Option, none,
  some, List, [], ◌∷◌, ◌++◌, if◌then◌else◌, ◌==◌, ltb, ==_iff, length, take, drop, drop-drop,
  replicate, arith, Bool-cases, inl, inr,
}
use exchange_server.Rpc.{
  Package, serialize, parse_package, field, read_word, word_bytes, RpcPkg, pack, unpack, checked,
  packed_size, packed_rest, packed_body, packed_crc, RpcError, copied, rpc_pkg_magic,
  rpc_pkg_head_size, read_header, crc32,
}

read_word-word_bytes : (n v : ℕ) → v < 256 ^ n → read_word (word_bytes n v) ≡ v
read_word-word_bytes zero v h = omega arith
read_word-word_bytes (suc n) v h =
    let below : v / 256 < 256 ^ n = omega (arith, h) in
    ap (λ w. v % 256 + 256 * w) (read_word-word_bytes n (v / 256) below) ∙ omega arith

-- A package whose fields have their widths reads back from its bytes as it was.
pub parse_package-serialize :
    (p : Package)
    → p.pkg_type < 2 ^ 32
    → p.command < 2 ^ 32
    → p.sequence < 2 ^ 32
    → p.req_id < 2 ^ 64
    → parse_package (serialize p) ≡ some p
unfolding parse_package serialize
parse_package-serialize p a b c e =
    rw
      (
        read_word-word_bytes 4 p.pkg_type a,
        read_word-word_bytes 4 p.command b,
        read_word-word_bytes 4 p.sequence c,
        read_word-word_bytes 8 p.req_id e,
      )
      (ground arith)

-- The packet that `Unpack` reads back: the checksum and the size of the body are those that `Pack`
-- wrote, and an empty body leaves the receiver's.
abbrev pub unpacked : RpcPkg → List ℕ → RpcPkg → RpcPkg
unpacked p body old = record p {
  crc = packed_crc p;
  body_size = length body;
  body = if ltb 0 (length body) then some body else old.body;
}

copied_all : (body : List ℕ) → copied (length body) body ≡ body
copied_all [] = refl
copied_all (b ∷ body) = ap (◌∷◌ b) (copied_all body)

skip_zeros : (n : ℕ) (l : List ℕ) → drop n (replicate n 0 ++ l) ≡ l
skip_zeros zero l = refl
skip_zeros (suc n) l = skip_zeros n l

take_all : (l : List ℕ) → take (length l) l ≡ l
take_all [] = refl
take_all (x ∷ l) = ap (◌∷◌ x) (take_all l)

length_zeros : (n : ℕ) (l : List ℕ) → length (replicate n 0 ++ l) ≡ n + length l
length_zeros zero l = omega arith
length_zeros (suc n) l = omega (arith, length_zeros n l)

crc32_below : (bytes : List ℕ) → crc32 bytes < 2 ^ 32
unfolding crc32
crc32_below bytes = omega arith

module _ (p old : RpcPkg) (body : List ℕ) where
  abbrev sent : RpcPkg
  sent = record p { body = some body }

  -- The header of a packet of the right widths reads back.
  header_read :
      p.magic < 2 ^ 32
      → p.command < 2 ^ 32
      → p.pkg_type < 2 ^ 16
      → p.result < 2 ^ 32
      → p.sequence < 2 ^ 32
      → p.req_id < 2 ^ 64
      → p.ext_size < 2 ^ 16
      → read_header (pack sent) old
        ≡ record p { crc = packed_crc sent; body_size = packed_size sent; body = old.body }
  unfolding pack
  header_read magic command pkg_type result sequence req_id ext = λ i. record {
    magic = read_word-word_bytes 4 p.magic magic i;
    command = read_word-word_bytes 4 p.command command i;
    pkg_type = read_word-word_bytes 2 p.pkg_type pkg_type i;
    result = read_word-word_bytes 4 p.result result i;
    crc =
        read_word-word_bytes 4 (packed_crc sent) (crc32_below (word_bytes 4 0 ++ packed_rest sent))
          i;
    sequence = read_word-word_bytes 4 p.sequence sequence i;
    req_id = read_word-word_bytes 8 p.req_id req_id i;
    body_size = read_word-word_bytes 4 (packed_size sent) (omega arith) i;
    ext_size = read_word-word_bytes 2 p.ext_size ext i;
    body = old.body;
  }

  packed_body_lem : length body < 2 ^ 32 → packed_body sent ≡ body
  packed_body_lem short =
      let size : length body % 2 ^ 32 ≡ length body = omega (arith, short) in
      ap (λ n. copied n body) size ∙ copied_all body

  length-pack :
      length body < 2 ^ 32 → length (pack sent) ≡ rpc_pkg_head_size + p.ext_size + length body
  unfolding pack
  length-pack short =
      omega (arith, length_zeros p.ext_size (packed_body sent), ap length (packed_body_lem short))

  body_sent : length body < 2 ^ 32 → drop (rpc_pkg_head_size + p.ext_size) (pack sent) ≡ body
  unfolding pack
  body_sent short =
      sym (drop-drop p.ext_size rpc_pkg_head_size (pack sent))
      ∙ skip_zeros p.ext_size (packed_body sent)
      ∙ packed_body_lem short

  crc_same : (crc32 (word_bytes 4 0 ++ drop 18 (pack sent)) == packed_crc sent) ≡ true
  unfolding pack
  crc_same = (==_iff (packed_crc sent) (packed_crc sent)).1 refl

  -- What the receiver becomes if the body has `n` bytes and starts `rest`.
  abbrev with_body : ℕ → List ℕ → RpcPkg × Option RpcError
  with_body n rest =
      if ltb 0 n
      then (record p { crc = packed_crc sent; body_size = n; body = some (take n rest) }, none)
      else (record p { crc = packed_crc sent; body_size = n; body = old.body }, none)

  check_passes :
      length body < 2 ^ 32
      → checked
          (pack sent)
          (record p { crc = packed_crc sent; body_size = packed_size sent; body = old.body })
        ≡ (unpacked sent body old, none)
  unfolding checked
  check_passes short =
      let size : length body % 2 ^ 32 ≡ length body = omega (arith, short) in
      let whole : ltb (length (pack sent)) (rpc_pkg_head_size + p.ext_size + length body % 2 ^ 32)
          ≡ false =
        ground (arith, length-pack short) in
      rw (whole, crc_same)
        ((λ i. with_body (size i) (body_sent short i)) ∙ elim (Bool-cases (ltb 0 (length body))) [
          | inl more ↦ rw (more, take_all body)
          | inr empty ↦ rw empty
        ])

  -- A packet with the right magic number, a body shorter than 2^32 bytes, and fields of their
  -- widths is read back by any receiver, with no error: the checksum and the size of the body are
  -- those that were written, and an empty body leaves the receiver's.
  pub unpack-pack :
      length body < 2 ^ 32
      → p.magic ≡ rpc_pkg_magic
      → p.command < 2 ^ 32
      → p.pkg_type < 2 ^ 16
      → p.result < 2 ^ 32
      → p.sequence < 2 ^ 32
      → p.req_id < 2 ^ 64
      → p.ext_size < 2 ^ 16
      → unpack (pack (record p { body = some body })) old ≡ (unpacked sent body old, none)
  unfolding unpack
  unpack-pack short magic command pkg_type result sequence req_id ext =
      let long : ltb (length (pack sent)) rpc_pkg_head_size ≡ false =
        ground (arith, length-pack short) in
      let header = header_read (omega (arith, magic)) command pkg_type result sequence req_id ext in
      let is_magic : (field 0 4 (pack sent) == rpc_pkg_magic) ≡ true =
        (==_iff (field 0 4 (pack sent)) rpc_pkg_magic).1 (ap (λ h. h.magic) header ∙ magic) in
      rw (long, is_magic) (ap (checked (pack sent)) header ∙ check_passes short)
