-- ===== src/Codec/Meta.antt =====
-- `encode_meta_page` and `decode_meta_page` of src/bptreedb/codec.py.
use bptreedb.Prelude.{
  ℕ, ◌+◌, ◌-◌, ◌<◌, ◌^◌, ◌≤◌, ◌≡◌, refl, sym, ap, ◌∙◌, [], ◌++◌, arith, leb, length, take,
  replicate, length-append, take-append_eq, append-nil, length-replicate, le→leb, take_append-le,
}
use bptreedb.Exceptions.{Result, ok, value_error, db_corrupted_error, ◌>>=◌, ◌>>◌, guard}
use bptreedb.Struct.{Bytes, size, pack, Values, unpack_fields}
use bptreedb.Struct.RoundTrip.{unpack_fields-pack, InRange}
use bptreedb.Keys.{eq_bytes}
use bptreedb.Entities.{MetaPage}
use bptreedb.Codec.{
  data_file_magic_prefix, data_file_version, meta_page_no_crc, crc32_field, BufferReader, reader_of,
  read_struct, write_struct, write_crc32, verify_crc32,
}
use bptreedb.Codec.Buffer.{
  Reads-head, Reads-start, write_struct-eq-ok, read_struct-pack, verify_crc32-write_crc32,
  write_struct_fits, write_crc32_fits,
}

-- `bytes(page_size - len(writer))` raises `ValueError` for a negative count; `Pager` accepts no page
-- size for which it is.
unfoldable pub encode_meta_page : MetaPage → Result Bytes
encode_meta_page page = do
  w ←
      write_struct meta_page_no_crc
        (
          data_file_magic_prefix,
          (
            data_file_version,
            (
              page.page_size_bytes,
              (
                page.root_page_id,
                (page.next_page_id, (page.freelist_head_page_id, (page.last_checkpoint_lsn, tt))),
              ),
            ),
          ),
        )
        []
  w' ← write_crc32 w
  guard (leb (length w') page.page_size_bytes) value_error
  ok (w' ++ replicate (page.page_size_bytes - length w') 0)

unfoldable pub decode_meta_page : Bytes → Result MetaPage
decode_meta_page bytes = do
  let front = take (size meta_page_no_crc + size crc32_field) bytes
  guard (eq_bytes (take (length data_file_magic_prefix) front) data_file_magic_prefix)
      db_corrupted_error
  verify_crc32 front
  (unpacked, _) ← read_struct meta_page_no_crc (reader_of front)
  ok (record {
    page_size_bytes = unpacked.1.1.0;
    root_page_id = unpacked.1.1.1.0;
    next_page_id = unpacked.1.1.1.1.0;
    freelist_head_page_id = unpacked.1.1.1.1.1.0;
    last_checkpoint_lsn = unpacked.1.1.1.1.1.1.0;
  })

-- The numbers that the page can hold, and room for it.
pub record Fits (page : MetaPage) : Type 0 where
  pub room : 52 ≤ page.page_size_bytes
  pub size_fits : page.page_size_bytes < 2 ^ 32
  pub root_fits : page.root_page_id < 2 ^ 64
  pub next_fits : page.next_page_id < 2 ^ 64
  pub head_fits : page.freelist_head_page_id < 2 ^ 64
  pub lsn_fits : page.last_checkpoint_lsn < 2 ^ 64

abbrev fields_of : MetaPage → Values meta_page_no_crc
fields_of page = (
  data_file_magic_prefix,
  (
    data_file_version,
    (
      page.page_size_bytes,
      (
        page.root_page_id,
        (page.next_page_id, (page.freelist_head_page_id, (page.last_checkpoint_lsn, tt))),
      ),
    ),
  ),
)

-- The first eight packed bytes are the magic.
magic_first :
    (page : MetaPage) (b : Bytes)
    → pack meta_page_no_crc (fields_of page) ≡ ok b
    → take 8 b ≡ data_file_magic_prefix
unfolding unpack_fields
magic_first page b h =
    ap (take 8) (sym (append-nil b))
    ∙ ap (λ (vs : Values meta_page_no_crc). vs.0)
        ((unpack_fields-pack meta_page_no_crc (fields_of page)
            (refl, (tt, (tt, (tt, (tt, (tt, (tt, tt))))))) h).1
          [])

fields_fit : (page : MetaPage) → Fits page → InRange meta_page_no_crc (fields_of page)
fields_fit page f = (
  refl,
  (omega arith, (f.size_fits, (f.root_fits, (f.next_fits, (f.head_fits, (f.lsn_fits, tt)))))),
)

-- The header with its checksum, before the padding.
record Front (page : MetaPage) (w' : Bytes) : Type 0 where
  w : Bytes
  written : write_struct meta_page_no_crc (fields_of page) [] ≡ ok w
  closed : write_crc32 w ≡ ok w'
  sized : length w' ≡ 52
  begins : take 8 w' ≡ data_file_magic_prefix
  verified : verify_crc32 w' ≡ ok tt
  reads :
      (vs : Values meta_page_no_crc) × (r : BufferReader) × (read_struct meta_page_no_crc
          (reader_of w')
        ≡ ok (vs, r))
      × (vs ≡ fields_of page)

Front-of : (page : MetaPage) → Fits page → (w' : Bytes) × Front page w'
Front-of page f =
    let (b, e, len) = write_struct_fits meta_page_no_crc (fields_of page) [] (fields_fit page f) in
    let (c, e', len') = write_crc32_fits b in
    let (c', same, _, ver) = verify_crc32-write_crc32 b e' in
    let (b', packed, eb) = write_struct-eq-ok meta_page_no_crc (fields_of page) [] e in
    let packed' : pack meta_page_no_crc (fields_of page) ≡ ok b = packed ∙ ap ok (sym eb) in
    (
      b ++ c,
      record {
        w = b;
        written = e;
        closed = e';
        sized = omega (arith, length-append b c, len, len');
        begins = take_prefix b c (omega (arith, len)) ∙ magic_first page b packed';
        verified = ver;
        reads = (
          fields_of page,
          _,
          read_struct-pack meta_page_no_crc (fields_of page) (reader_of (b ++ c)) b (c ++ [])
              (refl, (tt, (tt, (tt, (tt, (tt, (tt, tt))))))) packed'
              (Reads-head _ b c [] (Reads-start (b ++ c) (b ++ c) refl)),
          refl,
        );
      },
    )
  where
    take_prefix : (b c : Bytes) → 8 ≤ length b → take 8 (b ++ c) ≡ take 8 b
    take_prefix b c h = take_append-le 8 b c h

-- A meta page whose page size is at least 52 and below 2^32, and whose other numbers are below
-- 2^64, is encoded in exactly the page size, and decoded to itself.
pub decode-encode_meta :
    (page : MetaPage)
    → Fits page
    → (bs : Bytes) × (encode_meta_page page ≡ ok bs)
      × (length bs ≡ page.page_size_bytes)
      × (decode_meta_page bs ≡ ok page)
unfolding encode_meta_page decode_meta_page eq_bytes
decode-encode_meta page f =
    let (w', fr) = Front-of page f in
    let (vs, r, e, same) = fr.reads in
    let pad = replicate (page.page_size_bytes - length w') 0 in
    (
      w' ++ pad,
      rw (
        fr.written,
        fr.closed,
        le→leb (length w') page.page_size_bytes (omega (arith, fr.sized, f.room)),
      ),
      omega (
        arith,
        length-append w' pad,
        length-replicate {A = ℕ} (page.page_size_bytes - length w') 0,
        fr.sized,
        f.room,
      ),
      rw (take-append_eq 52 w' pad fr.sized, fr.begins, fr.verified, e, same),
    )
