-- ===== src/Cache/Set/Data.antt =====
-- The bytes that the lines of a set hold, in cache_set.cc.
use snipersimcommon.Base.{
  ℕ, zero, suc, ◌+◌, ◌*◌, ◌≤◌, ◌≡◌, refl, ap, ◌∙◌, true, false, some, List, [], ◌∷◌, ◌++◌, arith,
  leb, length, take, drop, ◌<◌, ◌%◌, u32, length-append, length-take, length-drop,
}
use native.Mathlib.Nat.{mul-le-mul_right}
use snipersimcommon.Cache.Set.{
  CacheSet, position, has_bytes, write_bytes, copy_in, copy_out, read_line, write_line,
}

drop-append_exact {ℓ} :
    {A : Type ℓ} (n : ℕ) (xs ys : List A) → n ≤ length xs → drop n (take n xs ++ ys) ≡ ys
drop-append_exact zero xs ys h = refl
drop-append_exact (suc n) [] ys h = absurd (omega arith)
drop-append_exact (suc n) (x ∷ xs) ys h = drop-append_exact n xs ys (omega arith)

take-length_append {ℓ} : {A : Type ℓ} (xs ys : List A) → take (length xs) (xs ++ ys) ≡ xs
take-length_append [] ys = refl
take-length_append (x ∷ xs) ys = ap (λ r. x ∷ r) (take-length_append xs ys)

copy_out-copy_in :
    (bytes src : List ℕ) (from : ℕ)
    → from ≤ length bytes
    → copy_out (copy_in bytes from src) from (length src) ≡ src
unfolding copy_out copy_in
copy_out-copy_in bytes src from h =
    ap (take (length src)) (drop-append_exact from bytes (src ++ drop (from + length src) bytes) h)
    ∙ take-length_append src (drop (from + length src) bytes)

length-copy_in :
    (bytes src : List ℕ) (from : ℕ)
    → from + length src ≤ length bytes
    → length (copy_in bytes from src) ≡ length bytes
unfolding copy_in
length-copy_in bytes src from inside = omega (
  arith,
  length-append (take from bytes) (src ++ drop (from + length src) bytes),
  length-append src (drop (from + length src) bytes),
  length-take from bytes,
  length-drop (from + length src) bytes,
  inside,
)

-- The end of what a line holds is inside the array of the set.
line_inside :
    (assoc blocksize line offset n : ℕ)
    → line < assoc
    → offset + n ≤ blocksize
    → line * blocksize + offset + n ≤ assoc * blocksize
line_inside assoc blocksize line offset n lt fits =
    let rows = mul-le-mul_right {m = suc line} {n = assoc} blocksize lt in omega (arith, rows, fits)

-- In a set that keeps its bytes (with fault injection), an array of `assoc` blocks that 32 bits index: what is
-- written into a line of the set within its block, without an update of the policy, is read back from it, and
-- nothing else of the set changes but the bytes, of which there are as many as before.
pub read_line-write_line :
    (s : CacheSet) (bytes src : List ℕ) (line offset : ℕ)
    → s.bytes ≡ some bytes
    → length bytes ≡ s.assoc * s.blocksize
    → s.assoc * s.blocksize < u32
    → line < s.assoc
    → offset + length src ≤ s.blocksize
    → (after : List ℕ) × (write_line s line offset src false
        ≡ some (record s { bytes = some after }))
      × (length after ≡ length bytes)
      × (read_line (record s { bytes = some after }) line offset (length src) false
          ≡ some (record s { bytes = some after }, src))
unfolding write_line read_line position copy_in copy_out
read_line-write_line s bytes src line offset e long small lt fits = (
  copy_in bytes from src,
  rw
      (
        fit,
        ap (λ b. has_bytes (start + length src) b) e,
        ap (λ b. write_bytes start src b) e,
        here,
        room,
      )
      refl,
  same_length,
  rw (fit, here, same_length, room, copy_out-copy_in bytes src from begins) refl,
)
  where
    from : ℕ
    from = line * s.blocksize + offset

    start : ℕ
    start = from % u32

    inside : from + length src ≤ s.assoc * s.blocksize
    inside = line_inside s.assoc s.blocksize line offset (length src) lt fits

    here : start ≡ from
    here = omega (arith, inside, small)

    fit : leb ((offset + length src) % u32) s.blocksize ≡ true
    fit =
        let same : ((offset + length src) % u32) ≡ offset + length src =
          omega (arith, inside, small) in
        rw same (ground (arith, fits))

    room : leb (from + length src) (length bytes) ≡ true
    room = rw long (ground (arith, inside))

    same_length : length (copy_in bytes from src) ≡ length bytes
    same_length = length-copy_in bytes src from (rw long inside)

    begins : from ≤ length bytes
    begins = omega (arith, inside, long)
