-- ===== src/Pager/Pages.antt =====
-- `write_page` and `read_page` of src/bptreedb/pager.py.
use bptreedb.Prelude.{
  ℕ, zero, suc, ◌+◌, ◌-◌, ◌*◌, ◌≤◌, ◌≡◌, ◌≢◌, ◌⊎◌, inl, inr, refl, sym, ap, ◌∙◌, true, List, [],
  ◌∷◌, ◌++◌, arith, ◌==◌, if◌then◌else◌, if_true, if_false, Bool-cases, length, take, drop,
  replicate, length-append, length-take, length-drop, length-replicate, take-append-drop,
  take-append_self, drop-append_eq, drop-drop, drop-add, take_append-le,
}
use bptreedb.Exceptions.{ok}
use bptreedb.Struct.{Bytes}
use bptreedb.Pager.{Pager, page_bytes, read_page, write_at, write_page}

module _ {ℓ} {A : Type ℓ} where
  drop_append-le : (n : ℕ) (xs ys : List A) → n ≤ length xs → drop n (xs ++ ys) ≡ drop n xs ++ ys
  drop_append-le zero xs ys h = refl
  drop_append-le (suc n) [] ys h = absurd (omega arith)
  drop_append-le (suc n) (x ∷ xs) ys h = drop_append-le n xs ys (omega arith)

  -- A window that ends in the front part does not see the rest.
  window-append :
      (n k : ℕ) (xs ys : List A)
      → n + k ≤ length xs
      → take k (drop n (xs ++ ys)) ≡ take k (drop n xs)
  window-append n k xs ys h =
      rw (drop_append-le n xs ys (omega arith))
        (take_append-le k (drop n xs) ys (omega (arith, length-drop n xs)))

pub length-padded :
    (position : ℕ) (file : Bytes) → position ≤ length (file ++ replicate (position - length file) 0)
length-padded position file = omega (
  arith,
  length-append file (replicate (position - length file) 0),
  length-replicate {A = ℕ} (position - length file) 0,
)

length-front :
    (position : ℕ) (file : Bytes)
    → length (take position (file ++ replicate (position - length file) 0)) ≡ position
length-front position file = omega (
  arith,
  length-padded position file,
  length-take position (file ++ replicate (position - length file) 0),
)

-- A write does not cut the file.
pub length-write_at :
    (position : ℕ) (bytes file : Bytes) → length file ≤ length (write_at position bytes file)
length-write_at position bytes file = omega (
  arith,
  length-front position file,
  length-append (take position (file ++ replicate (position - length file) 0))
      (bytes ++ drop (position + length bytes) file),
  length-append bytes (drop (position + length bytes) file),
  length-drop (position + length bytes) file,
)

write_at-itself :
    (position : ℕ) (bytes file : Bytes)
    → take (length bytes) (drop position (write_at position bytes file)) ≡ bytes
write_at-itself position bytes file =
    rw
      (drop-append_eq position (take position (file ++ replicate (position - length file) 0))
        (bytes ++ drop (position + length bytes) file) (length-front position file))
      (take-append_self bytes (drop (position + length bytes) file))

write_at-before :
    (n k position : ℕ) (bytes file : Bytes)
    → n + k ≤ position
    → n + k ≤ length file
    → take k (drop n (write_at position bytes file)) ≡ take k (drop n file)
write_at-before n k position bytes file h h' =
    let padded = file ++ replicate (position - length file) 0 in
    let front = take position padded in
    window-append n k front (bytes ++ drop (position + length bytes) file)
      (omega (arith, h, length-front position file))
    ∙ sym (
        window-append n k front (drop position padded)
          (omega (arith, h, length-front position file)))
    ∙ ap (λ xs. take k (drop n xs)) (take-append-drop position padded)
    ∙ window-append n k file (replicate (position - length file) 0) h'

write_at-behind :
    (n position : ℕ) (bytes file : Bytes)
    → position + length bytes ≤ n
    → drop n (write_at position bytes file) ≡ drop n file
write_at-behind n position bytes file h =
    let written = write_at position bytes file in
    let end = position + length bytes in
    let cut : drop end written ≡ drop end file =
      drop-add position (length bytes) written bytes (drop end file)
        (drop-append_eq position (take position (file ++ replicate (position - length file) 0))
          (bytes ++ drop end file) (length-front position file))
        refl in
    let n_eq : n ≡ end + (n - end) = omega (arith, h) in
    ap (λ m. drop m written) n_eq
    ∙ sym (drop-drop end (n - end) written)
    ∙ ap (drop (n - end)) cut
    ∙ drop-drop end (n - end) file
    ∙ ap (λ m. drop m file) (sym n_eq)

mul_le : (a b s : ℕ) → a ≤ b → a * s ≤ b * s
mul_le a b s h =
    let e : b ≡ a + (b - a) = omega (arith, h) in
    let f : (a + (b - a)) * s ≡ a * s + (b - a) * s = omega arith in
    omega (arith, ap (λ m. m * s) e ∙ f)

<-cases : (a b : ℕ) → a ≢ b → (a + 1 ≤ b) ⊎ (b + 1 ≤ a)
<-cases a b n = ground (arith, n)

-- Whole pages: `j` is another page than `i`, and in the file.
page_bytes-write_at :
    (i j size : ℕ) (bytes file : Bytes)
    → length bytes ≡ size
    → j ≢ i
    → (j + 1) * size ≤ length file
    → take size (drop (j * size) (write_at (i * size) bytes file))
      ≡ take size (drop (j * size) file)
page_bytes-write_at i j size bytes file l n h = elim (<-cases j i n) [
  | inl b ↦
      write_at-before (j * size) size (i * size) bytes file (omega (arith, mul_le (j + 1) i size b))
        (omega (arith, h))
  | inr b ↦ ap (take size) (
      write_at-behind (j * size) (i * size) bytes file
        (rw l (omega (arith, mul_le (i + 1) j size b))))
]

read_page_lem :
    (j : ℕ) (p : Pager) (c : Bytes)
    → p.is_open ≡ true
    → page_bytes j p ≡ c
    → length c ≡ p.page_size_bytes
    → (q : Pager) × (read_page j p ≡ ok (c, q))
unfolding read_page
read_page_lem j p c o e l = (
  record p { stats = record p.stats { page_reads = p.stats.page_reads + 1 } },
  ground (arith, o, e, l),
)

pub page_bytes_after :
    (i j : ℕ) (bytes : Bytes) (p : Pager)
    → length bytes ≡ p.page_size_bytes
    → (j ≡ i) ⊎ ((j + 1) * p.page_size_bytes ≤ length p.file)
    → (take p.page_size_bytes
          (drop (j * p.page_size_bytes) (write_at (i * p.page_size_bytes) bytes p.file))
        ≡ (if j == i then bytes else page_bytes j p))
      × (length (if j == i then bytes else page_bytes j p) ≡ p.page_size_bytes)
page_bytes_after i j bytes p l h = elim (Bool-cases (j == i)) [
  | inl y ↦
      (let written = write_at (i * p.page_size_bytes) bytes p.file in
        let e : j ≡ i = ground (arith, y) in
        (
          ap (λ m. take p.page_size_bytes (drop (m * p.page_size_bytes) written)) e
              ∙ ap (λ n. take n (drop (i * p.page_size_bytes) written)) (sym l)
              ∙ write_at-itself (i * p.page_size_bytes) bytes p.file
              ∙ sym (if_true bytes (page_bytes j p) y),
          ap length (if_true bytes (page_bytes j p) y) ∙ l,
        ))
  | inr y ↦
      (let n : j ≢ i = λ e. ground (arith, y, e) in
        let there : (j + 1) * p.page_size_bytes ≤ length p.file = elim h [
          | inl e ↦ absurd (n e)
          | inr le ↦ le
        ] in
        let size = p.page_size_bytes in
        let long : length (page_bytes j p) ≡ size = omega (
          arith,
          there,
          length-take size (drop (j * size) p.file),
          length-drop (j * size) p.file,
        ) in
        (
          page_bytes-write_at i j size bytes p.file l n there
              ∙ sym (if_false bytes (page_bytes j p) y),
          ap length (if_false bytes (page_bytes j p) y) ∙ long,
        ))
]

-- On an open pager, `write_page` of a page of the right length succeeds; after it `read_page` gives
-- those bytes for that page, and for every other page that was whole in the file the bytes that it gave
-- before.
pub read_page-write_page :
    (i j : ℕ) (bytes : Bytes) (p : Pager)
    → p.is_open ≡ true
    → length bytes ≡ p.page_size_bytes
    → (j ≡ i) ⊎ ((j + 1) * p.page_size_bytes ≤ length p.file)
    → (p' : Pager) × (q : Pager) × (write_page i bytes p ≡ ok p')
      × (read_page j p' ≡ ok ((if j == i then bytes else page_bytes j p), q))
unfolding write_page
read_page-write_page i j bytes p o l h =
    let p' : Pager = record p {
      file = write_at (i * p.page_size_bytes) bytes p.file;
      stats = record p.stats { page_writes = p.stats.page_writes + 1 };
    } in
    let c = if j == i then bytes else page_bytes j p in
    let (here, long) = page_bytes_after i j bytes p l h in
    let (q, reads) = read_page_lem j p' c o here long in (p', q, rw o, reads)
