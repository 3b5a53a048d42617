-- ===== src/Sstable/Reader/Blocks.antt =====
-- The blocks of an opened SSTable, as they are read from the file.
use rust_kvdb.Prelude.{
  ℕ, suc, ◌+◌, ◌-◌, ◌^◌, ◌<◌, ltb, false, ◌||◌, none, some, List, [], ◌∷◌, ◌++◌, length, get_elem?,
  All, length-append, append_assoc, ◌≡◌, refl, ap, ap₂, sym, ◌∙◌, arith,
}
use rust_kvdb.Bytes.{Bytes}
use rust_kvdb.Bytes.Cursor.{as_u32, slice, At, At-start, At-append, At-slice}
use rust_kvdb.KvError.{ok}
use rust_kvdb.Sstable.Block
use rust_kvdb.Sstable.Block.{Block, Entry}
use rust_kvdb.Sstable.Block.RoundTrip.{IsEntry, decode-encode_block}
use rust_kvdb.Sstable.Builder.Layout.{
  block_of, written, written-append, index_of, index_of-append, last_of,
}
use rust_kvdb.Sstable.Reader.{SstableReader, block_end, read_block}

-- A block that the code can write and read back.
pub record IsBlock (es : List Entry) : Type 0 where
  pub few : length es < 2 ^ 32
  pub fits : All IsEntry es

-- A reader of a file with these blocks.
pub record HasBlocks (r : SstableReader) (blocks : List (List Entry)) : Type 0 where
  pub tail : Bytes
  pub contents : r.contents ≡ written blocks ++ tail
  pub index : r.index ≡ index_of 0 blocks
  pub index_offset : r.index_offset ≡ length (written blocks)
  pub small : length (written blocks) < 2 ^ 32
  pub good : All IsBlock blocks

-- A block as it is decoded.
abbrev pub decoded : List Entry → Block
decoded es = record { entries = es; encoded_size = length (Block.encode (block_of es)) - 4 }

get_elem?-middle :
    {A : Type 0} (xs ys : List A) (y : A) → get_elem? (xs ++ (y ∷ ys)) (length xs) ≡ some y
get_elem?-middle [] ys y = refl
get_elem?-middle (x ∷ xs) ys y = get_elem?-middle xs ys y

pub length-index_of :
    (offset : ℕ) (blocks : List (List Entry)) → length (index_of offset blocks) ≡ length blocks
length-index_of offset [] = refl
length-index_of offset (es ∷ blocks) =
    omega (arith, length-index_of (offset + length (Block.encode (block_of es))) blocks)

-- The entry of the index for a block.
index-middle :
    (pre post : List (List Entry)) (es : List Entry)
    → get_elem? (index_of 0 (pre ++ (es ∷ post))) (length pre)
      ≡ some (as_u32 (length (written pre)), last_of es)
index-middle pre post es =
    let here = index_of 0 pre in
    let start : 0 + length (written pre) ≡ length (written pre) = omega arith in
    ap (λ i. get_elem? i (length pre)) (index_of-append 0 pre (es ∷ post))
    ∙ ap (get_elem? (here ++ index_of (0 + length (written pre)) (es ∷ post)))
        (sym (length-index_of 0 pre))
    ∙ get_elem?-middle here _ (as_u32 (0 + length (written pre)), last_of es)
    ∙ ap (λ o. some (as_u32 o, last_of es)) start

All-split : {A : Type 0} (P : A → Type 0) (xs ys : List A) (y : A) → All P (xs ++ (y ∷ ys)) → P y
All-split P [] ys y (p, a) = p
All-split P (x ∷ xs) ys y (p, a) = All-split P xs ys y a

get_elem?-end :
    {A : Type 0} (xs : List A) (y : A) → get_elem? (xs ++ (y ∷ [])) (suc (length xs)) ≡ none
get_elem?-end [] y = refl
get_elem?-end (x ∷ xs) y = get_elem?-end xs y

-- The number of bytes up to the end of a block.
abbrev stop : List (List Entry) → List Entry → ℕ
stop pre es = length (written pre) + length (Block.encode (block_of es))

length-written_split :
    (pre post : List (List Entry)) (es : List Entry)
    → length (written (pre ++ (es ∷ post))) ≡ stop pre es + length (written post)
length-written_split pre post es = omega (
  arith,
  ap length (written-append pre (es ∷ post)),
  length-append (written pre) (written (es ∷ post)),
  length-append (Block.encode (block_of es)) (written post),
)

module _ (r : SstableReader) where
  block_end-stop :
      (pre post : List (List Entry)) (es : List Entry)
      → HasBlocks r (pre ++ (es ∷ post))
      → block_end r (length pre) ≡ stop pre es
  block_end-stop pre [] es h =
      let last : get_elem? r.index (suc (length pre)) ≡ none =
        ap (λ i. get_elem? i (suc (length pre))) h.index
        ∙ ap (λ i. get_elem? i (suc (length pre))) (index_of-append 0 pre (es ∷ []))
        ∙ ap
            (λ n.
              get_elem? (index_of 0 pre ++ index_of (0 + length (written pre)) (es ∷ [])) (suc n))
            (sym (length-index_of 0 pre))
        ∙ get_elem?-end (index_of 0 pre) (as_u32 (0 + length (written pre)), last_of es) in
      rw (block_end, last) (omega (arith, h.index_offset, length-written_split pre [] es))
  block_end-stop pre (fs ∷ post) es h =
      let split : (pre ++ (es ∷ [])) ++ (fs ∷ post) ≡ pre ++ (es ∷ fs ∷ post) =
        append_assoc pre (es ∷ []) (fs ∷ post) in
      let size : length (written (pre ++ (es ∷ []))) ≡ stop pre es =
        omega (arith, length-written_split pre [] es) in
      let below : stop pre es < 2 ^ 32 =
        omega (arith, h.small, length-written_split pre (fs ∷ post) es) in
      let next : get_elem? r.index (suc (length pre))
          ≡ some (as_u32 (length (written (pre ++ (es ∷ [])))), last_of fs) =
        ap (λ i. get_elem? i (suc (length pre))) (h.index ∙ ap (index_of 0) (sym split))
        ∙ ap (get_elem? (index_of 0 ((pre ++ (es ∷ [])) ++ (fs ∷ post)))) (
            let q : suc (length pre) ≡ length (pre ++ (es ∷ [])) =
              omega (arith, length-append pre (es ∷ [])) in
            q)
        ∙ index-middle (pre ++ (es ∷ [])) post fs in
      rw (block_end, next) (omega (arith, size, below))

  -- Each block is read from its place in the file and decoded.
  pub read_block_lem :
      (pre post : List (List Entry)) (es : List Entry)
      → HasBlocks r (pre ++ (es ∷ post))
      → read_block r (length pre) ≡ ok (decoded es)
  unfolding read_block
  read_block_lem pre post es h =
      let enc = Block.encode (block_of es) in
      let front = written pre in
      let rest = written post ++ h.tail in
      let good = All-split IsBlock pre post es h.good in
      let sizes = length-written_split pre post es in
      let q : r.contents ≡ front ++ (enc ++ rest) =
        h.contents
        ∙ ap (λ (t : Bytes). t ++ h.tail) (written-append pre (es ∷ post))
        ∙ append_assoc front (enc ++ written post) h.tail
        ∙ ap (◌++◌ front) (append_assoc enc (written post) h.tail) in
      let total : length r.contents ≡ stop pre es + length rest =
        omega (arith, ap length q, length-append front (enc ++ rest), length-append enc rest) in
      let at0 : At r.contents 0 (front ++ (enc ++ rest)) =
        rw q (At-start (front ++ (enc ++ rest))) in
      let at1 : At r.contents (0 + length front) (enc ++ rest) =
        At-append front (enc ++ rest) at0 in
      let offset : as_u32 (length front) ≡ length front = omega (arith, h.small, sizes) in
      let start : 0 + length front ≡ length front = omega arith in
      let here : get_elem? r.index (length pre) ≡ some (as_u32 (length front), last_of es) =
        ap (λ i. get_elem? i (length pre)) h.index ∙ index-middle pre post es in
      let piece : slice r.contents (as_u32 (length front)) (stop pre es - as_u32 (length front))
          ≡ enc =
        ap₂ (slice r.contents) (offset ∙ sym start)
          (let q : stop pre es - as_u32 (length front) ≡ length enc = omega (arith, offset) in q)
        ∙ At-slice enc rest at1 in
      let inside : (ltb (length r.contents) (stop pre es)
            || ltb (stop pre es) (as_u32 (length front)))
          ≡ false =
        ground (arith, total, offset) in
      rw (read_block, here, block_end-stop pre post es h, inside, piece)
        (decode-encode_block (block_of es) good.few good.fits)
