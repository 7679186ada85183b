-- ===== src/Codec/Page/Splice.antt =====
-- The assignments to slices of the page buffer in `encode_page` of src/bptreedb/codec.py.
use bptreedb.Prelude.{
  ℕ, ◌+◌, ◌-◌, ◌≤◌, ◌≡◌, refl, sym, ap, ◌∙◌, ◌++◌, arith, length, take, drop, length-append,
  length-take, length-drop, drop-append_eq, drop-add, drop-drop, append_assoc,
}
use bptreedb.Struct.{Bytes}
use bptreedb.Codec.Page.{splice}

length_at : (at : ℕ) (buffer : Bytes) → at ≤ length buffer → length (take at buffer) ≡ at
length_at at buffer h = omega (arith, length-take at buffer)

pub splice-parts :
    (at : ℕ) (new buffer : Bytes)
    → splice at new buffer ≡ take at buffer ++ (new ++ drop (at + length new) buffer)
splice-parts at new buffer = append_assoc (take at buffer) new (drop (at + length new) buffer)

pub length-splice :
    (at : ℕ) (new buffer : Bytes)
    → at + length new ≤ length buffer
    → length (splice at new buffer) ≡ length buffer
length-splice at new buffer h = omega (
  arith,
  h,
  ap length (splice-parts at new buffer),
  length_at at buffer (omega (arith, h)),
  length-append (take at buffer) (new ++ drop (at + length new) buffer),
  length-append new (drop (at + length new) buffer),
  length-drop (at + length new) buffer,
)

-- From the place on, the new bytes stand before the old ones behind them.
pub drop-splice_at :
    (at : ℕ) (new buffer : Bytes)
    → at ≤ length buffer
    → drop at (splice at new buffer) ≡ new ++ drop (at + length new) buffer
drop-splice_at at new buffer h =
    ap (drop at) (splice-parts at new buffer)
    ∙ drop-append_eq at (take at buffer) (new ++ drop (at + length new) buffer)
        (length_at at buffer h)

-- Two buffers that agree from one place on agree from every later one on.
pub drop_behind : (m k : ℕ) (xs ys : Bytes) → m ≤ k → drop m xs ≡ drop m ys → drop k xs ≡ drop k ys
drop_behind m k xs ys le e =
    let there : m + (k - m) ≡ k = omega (arith, le) in
    ap (λ n. drop n xs) (sym there)
    ∙ sym (drop-drop m (k - m) xs)
    ∙ ap (drop (k - m)) e
    ∙ drop-drop m (k - m) ys
    ∙ ap (λ n. drop n ys) there

-- What stands behind the new bytes is as it was.
pub drop-splice :
    (at k : ℕ) (new buffer : Bytes)
    → at ≤ length buffer
    → at + length new ≤ k
    → drop k (splice at new buffer) ≡ drop k buffer
drop-splice at k new buffer h le =
    let behind : drop (at + length new) (splice at new buffer) ≡ drop (at + length new) buffer =
      drop-add at (length new) (splice at new buffer) new (drop (at + length new) buffer)
        (drop-splice_at at new buffer h) refl in
    drop_behind (at + length new) k (splice at new buffer) buffer le behind
