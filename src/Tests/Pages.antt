-- ===== src/Tests/Pages.antt =====
-- Pages of src/bptreedb/codec.py, encoded and decoded.
use bptreedb.Prelude.{◌≡◌, refl, [], ◌∷◌}
use bptreedb.Exceptions.{ok, ◌>>=◌}
use bptreedb.Struct.{pack, unpack, unpack_from}
use bptreedb.Entities.{Page, tree, leaf, internal, freelist}
use bptreedb.Codec.{
  read_struct, read_length_prefixed_bytes, write_struct, write_length_prefixed_bytes,
}
use bptreedb.Codec.Page.{
  write_internal_record, write_leaf_record, place_records, write_page_ids, finish_page, encode_page,
  read_internal_record, read_leaf_record, read_slots, read_page_ids, decode_by_page_type,
  decode_page,
}

program : Unit {0}
unfolding pack unpack unpack_from read_struct read_length_prefixed_bytes write_struct
    write_length_prefixed_bytes write_internal_record write_leaf_record place_records write_page_ids
    finish_page encode_page read_internal_record read_leaf_record read_slots read_page_ids
    decode_by_page_type decode_page
program = tt

abbrev two_slots : Page
two_slots = tree (
    leaf (record {
      last_modified_lsn = 7;
      right_sibling_page_id = 3;
      slots =
          record { key = 1 ∷ []; value = 10 ∷ 20 ∷ [] }
          ∷ record { key = 2 ∷ 5 ∷ []; value = [] }
          ∷ [];
    }))

two_slots_back : (encode_page two_slots 128 >>= decode_page) ≡ ok two_slots
unfolding program
two_slots_back = refl

abbrev separators : Page
separators = tree (
    internal (record {
      last_modified_lsn = 9;
      leftmost_child_page_id = 4;
      slots =
          record { key = 8 ∷ []; child_page_id = 5 }
          ∷ record { key = 9 ∷ []; child_page_id = 6 }
          ∷ [];
    }))

separators_back : (encode_page separators 128 >>= decode_page) ≡ ok separators
unfolding program
separators_back = refl

abbrev freed : Page
freed =
    freelist
      (record { last_modified_lsn = 0; next_freelist_page_id = 12; freed_page_ids = 3 ∷ 300 ∷ [] })

freed_back : (encode_page freed 64 >>= decode_page) ≡ ok freed
unfolding program
freed_back = refl
