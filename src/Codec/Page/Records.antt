-- ===== src/Codec/Page/Records.antt =====
-- The loops over the slots in `encode_page` and `decode_page` of src/bptreedb/codec.py.
use bptreedb.Prelude.{
  ℕ, suc, ◌+◌, ◌-◌, ◌*◌, ◌≤◌, ◌<◌, ◌^◌, ◌≡◌, refl, sym, ap, ◌∙◌, false, List, [], ◌∷◌, ◌++◌, arith,
  length, take, drop, length-append, append_assoc, append-nil, take-append_eq, ltb, All,
}
use bptreedb.Exceptions.{Result, ok}
use bptreedb.Struct.{Bytes, pack}
use bptreedb.Struct.RoundTrip.{pack_fits}
use bptreedb.Codec.{BufferReader, slot_entry, write_struct}
use bptreedb.Codec.Buffer.{Reads, Reads-head, Reads-advance, advance, read_struct-pack}
use bptreedb.Codec.Page.{splice, Layout, place_record, place_records, read_slots}
use bptreedb.Codec.Page.Splice.{length-splice, drop-splice_at, drop-splice, drop_behind}

-- An encoder and a decoder of one record, and the slots on which they agree.
pub record RecordCodec (A : Type 0) : Type 1 where
  pub write_record : A → Result Bytes
  pub read_record : Bytes → Result A
  pub record_size : A → ℕ
  pub FitsRecord : A → Type 0
  pub round_trip :
      (s : A)
      → FitsRecord s
      → (b : Bytes) × (write_record s ≡ ok b) × (length b ≡ record_size s) × (read_record b ≡ ok s)

module _ {A : Type 0} (codec : RecordCodec A) where
  unfoldable pub records_size : List A → ℕ
  records_size [] = 0
  records_size (s ∷ slots) = codec.record_size s + records_size slots

  -- How the records stand in a buffer: the loop over the directory finds them, in every buffer that is
  -- the same from the lowest record on.
  pub record Placed (l : Layout) (slots : List A) (l' : Layout) : Type 0 where
    pub entries : Bytes
    pub directory : l'.directory ≡ l.directory ++ entries
    pub sized : length entries ≡ 8 * length slots
    pub same_length : length l'.buffer ≡ length l.buffer
    pub lower : l'.record_end_ptr + records_size slots ≡ l.record_end_ptr
    pub same_behind : drop l.record_end_ptr l'.buffer ≡ drop l.record_end_ptr l.buffer
    pub read_back :
        (r : BufferReader) (rest : Bytes)
        → Reads r entries rest
        → drop l'.record_end_ptr r.bytes ≡ drop l'.record_end_ptr l'.buffer
        → read_slots codec.read_record (length slots) r ≡ ok slots

  place_record_fits :
      (l : Layout) (b : Bytes)
      → l.record_end_ptr < 2 ^ 32
      → length b ≤ l.record_end_ptr
      → (e : Bytes) × (pack slot_entry (l.record_end_ptr - length b, (length b, tt)) ≡ ok e)
        × (length e ≡ 8)
        × (place_record codec.write_record l b
            ≡ ok (record {
              buffer = splice (l.record_end_ptr - length b) b l.buffer;
              record_end_ptr = l.record_end_ptr - length b;
              directory = l.directory ++ e;
            }))
  unfolding place_record write_struct
  place_record_fits l b fits le =
      let (e, packed, len) =
        pack_fits slot_entry (l.record_end_ptr - length b, (length b, tt))
          (omega (arith, fits), (omega (arith, fits, le), tt)) in
      let small : ltb l.record_end_ptr (length b) ≡ false = ground (arith, le) in
      (e, packed, len, rw (small, packed))

  read_slots-cons :
      (r : BufferReader) (rest e entries b tail : Bytes) (ptr : ℕ) (s : A) (slots : List A)
      → pack slot_entry (ptr, (length b, tt)) ≡ ok e
      → Reads r (e ++ entries) rest
      → drop ptr r.bytes ≡ b ++ tail
      → codec.read_record b ≡ ok s
      → read_slots codec.read_record (length slots) (advance 8 r) ≡ ok slots
      → read_slots codec.read_record (suc (length slots)) r ≡ ok (s ∷ slots)
  unfolding read_slots
  read_slots-cons r rest e entries b tail ptr s slots packed reads there back behind =
      let entry =
        read_struct-pack slot_entry (ptr, (length b, tt)) r e (entries ++ rest) (tt, (tt, tt))
          packed (Reads-head r e entries rest reads) in
      let cut : take (length b) (drop ptr r.bytes) ≡ b =
        ap (take (length b)) there ∙ take-append_eq (length b) b tail refl in
      rw (entry, cut, back, behind)

  -- Slots that fit below the record pointer are placed.
  pub place_records-Placed :
      (slots : List A) (l : Layout)
      → All codec.FitsRecord slots
      → l.record_end_ptr < 2 ^ 32
      → l.record_end_ptr ≤ length l.buffer
      → records_size slots ≤ l.record_end_ptr
      → (l' : Layout) × (place_records codec.write_record slots l ≡ ok l') × Placed l slots l'
  unfolding place_records records_size read_slots
  place_records-Placed [] l fit small inside room = (
    l,
    refl,
    record {
      entries = [];
      directory = sym (append-nil l.directory);
      sized = refl;
      same_length = refl;
      lower = omega arith;
      same_behind = refl;
      read_back = λ r rest reads same. refl;
    },
  )
  place_records-Placed (s ∷ slots) l fit small inside room =
      let (b, written, sized, back) = codec.round_trip s fit.0 in
      let ptr = l.record_end_ptr - length b in
      let (e, packed, len, placed) = place_record_fits l b small (omega (arith, sized, room)) in
      let l₁ : Layout = record {
        buffer = splice ptr b l.buffer;
        record_end_ptr = ptr;
        directory = l.directory ++ e;
      } in
      let spliced : length l₁.buffer ≡ length l.buffer =
        length-splice ptr b l.buffer (omega (arith, inside, sized, room)) in
      let (l', run, p) =
        place_records-Placed slots l₁ fit.1 (omega (arith, small)) (omega (arith, spliced, inside))
          (omega (arith, sized, room)) in
      (
        l',
        rw (written, placed) run,
        record {
          entries = e ++ p.entries;
          directory = p.directory ∙ append_assoc l.directory e p.entries;
          sized = omega (arith, length-append e p.entries, len, p.sized);
          same_length = p.same_length ∙ spliced;
          lower = omega (arith, p.lower, sized, room);
          same_behind =
              drop_behind ptr l.record_end_ptr l'.buffer l₁.buffer (omega arith) p.same_behind
              ∙ drop-splice ptr l.record_end_ptr b l.buffer (omega (arith, inside))
                  (omega (arith, sized, room));
          read_back = λ r rest reads same.
              let there : drop ptr r.bytes ≡ b ++ drop (ptr + length b) l.buffer =
                drop_behind l'.record_end_ptr ptr r.bytes l'.buffer (omega (arith, p.lower)) same
                ∙ p.same_behind
                ∙ drop-splice_at ptr b l.buffer (omega (arith, inside)) in
              read_slots-cons r rest e p.entries b (drop (ptr + length b) l.buffer) ptr s slots
                packed reads there back
                (p.read_back (advance 8 r) rest (Reads-advance r 8 e p.entries rest reads len)
                  same);
        },
      )
