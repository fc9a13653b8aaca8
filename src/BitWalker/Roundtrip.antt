-- ===== src/BitWalker/Roundtrip.antt =====
-- A field that EFBitWalkerWrite of src/EFBitWalker.c has written is what EFBitWalkerRead reads.
use native.Mathlib.Nat.{
  pow-le-pow_right, mul-le-mul_left, add-mul-div_right, mul-add-mod_self_right, mod-eq_of_lt,
  div-eq_of_lt,
}
use emex_foundation.Base.{
  some, ℕ, ◌+◌, ◌*◌, ◌/◌, ◌%◌, ◌^◌, ◌≤◌, ◌<◌, bit_or, true, false, List, ◌≡◌, refl, ap, ◌∙◌, arith,
  leb, length, pos, ok, load_le-store_le,
}
use emex_foundation.BitWalker.{
  Handle, BitWalker, window, to_endian, shift, bad_width, advance, store_window, load_window, write,
  read, get_position, set_position,
}
use emex_foundation.Base.Bits.{bit_or_disjoint}
use emex_foundation.BitWalker.Swap.{IsWhole, to_endian-to_endian}

-- Nine bytes hold what is before the cursor and a field of up to 64 bits behind it.
window_holds : (c v k : ℕ) → c < 2 ^ k → v < 2 ^ 64 → k < 8 → c + v * 2 ^ k < 2 ^ 71
window_holds c v k h l m =
    let power : 2 ^ k ≤ 2 ^ 7 =
      pow-le-pow_right {n = 2} (omega arith) {i = k} {j = 7} (omega arith) in
    let scaled : v * 2 ^ k ≤ v * 2 ^ 7 = mul-le-mul_left v power in omega (arith, power, scaled)

field_behind : (c v k : ℕ) → c < 2 ^ k → (c + v * 2 ^ k) / 2 ^ k ≡ v
field_behind c v k h =
    let none_below : c / 2 ^ k ≡ 0 = div-eq_of_lt h in
    add-mul-div_right c v {z = 2 ^ k} (omega (arith, h)) ∙ omega (arith, none_below)

field_before : (c v k : ℕ) → c < 2 ^ k → (c + v * 2 ^ k) % 2 ^ k ≡ c
field_before c v k h =
    let swapped : c + v * 2 ^ k ≡ v * 2 ^ k + c = omega arith in
    ap (λ n. n % 2 ^ k) swapped ∙ (mul-add-mod_self_right v (2 ^ k) c ∙ mod-eq_of_lt h)

shift_small : (c v k : ℕ) → c < 2 ^ k → v < 2 ^ 64 → k < 8 → shift v k ≡ ok (v * 2 ^ k)
shift_small c v k h l m =
    let small : leb 128 k ≡ false = ground arith in
    let whole : v * 2 ^ k % 2 ^ 128 ≡ v * 2 ^ k = omega (arith, window_holds c v k h l m) in
    rw (small, whole) refl

stored : (v : ℕ) → v < 2 ^ 72 → load_window (store_window v) ≡ v
unfolding store_window load_window
stored v h = load_le-store_le 9 v (omega (arith, h))

window-store_window : (v : ℕ) → window (store_window v) ≡ store_window v
unfolding store_window
window-store_window v = refl

length-store_window : (v : ℕ) → length (store_window v) ≡ 9
unfolding store_window
length-store_window v = refl

width_fits : (value bits : ℕ) → bad_width bits ≡ false → value < 2 ^ bits → value < 2 ^ 64
width_fits value bits b r =
    let narrow : bits ≤ 64 = ground arith in
    let power : 2 ^ bits ≤ 2 ^ 64 =
      pow-le-pow_right {n = 2} (omega arith) {i = bits} {j = 64} narrow in
    omega (arith, r, power)

module _ {F : Type 0} (h : Handle F) where
  -- EFBitWalkerWrite and EFBitWalkerRead, of a value that has the given width, of at most 64 bits
  -- and in big-endian order of up to 8, 16, 32 or 64, with the cursor in a byte, where the window is
  -- zero from the cursor on, and the handle reads, writes and reads what it wrote: the write moves
  -- the cursor on by the width and keeps what stands before the old cursor, and the read at the old
  -- cursor gives the value.
  pub read-write :
      (w : BitWalker F) (value bits n : ℕ) (bytes : List ℕ) (f : F) (after again : List ℕ → F)
      → bad_width bits ≡ false
      → IsWhole w.endian bits
      → w.bit_index < 8
      → value < 2 ^ bits
      → h.read (pos 9) (h.seek w.byte_pos w.file) ≡ (pos n, bytes, f)
      → load_window (window bytes) < 2 ^ w.bit_index
      → ((win : List ℕ) → length win ≡ 9 → h.write win (h.seek w.byte_pos f) ≡ (pos 9, after win))
      → ((win : List ℕ)
          → length win ≡ 9
          → h.read (pos 9) (h.seek w.byte_pos (after win)) ≡ (pos 9, win, again win))
      → (win : List ℕ) × (write h value bits (some w)
          ≡ ok (true, some (advance h bits (record w { file = after win }))))
        × (load_window win % 2 ^ w.bit_index ≡ load_window (window bytes))
        × (read h bits (
              set_position h
                (get_position h (some w))
                (some (advance h bits (record w { file = after win }))))
            ≡ ok (value, some (record w { file = again win })))
  unfolding write read
  read-write w value bits n bytes f after again b e i l r z stores loads =
      let v = to_endian w.endian bits value in
      let (inside, back) = to_endian-to_endian w.endian bits value e l in
      let small = width_fits v bits b inside in
      let fits = window_holds (load_window (window bytes)) v w.bit_index z small i in
      let win = store_window (load_window (window bytes) + v * 2 ^ w.bit_index) in
      let held : load_window win ≡ load_window (window bytes) + v * 2 ^ w.bit_index =
        stored _ (omega (arith, fits)) in
      let merged : bit_or (load_window (window bytes)) (v * 2 ^ w.bit_index)
          ≡ load_window (window bytes) + v * 2 ^ w.bit_index =
        bit_or_disjoint (load_window (window bytes)) v w.bit_index z in
      (
        win,
        rw
            (
              b,
              mod-eq_of_lt l,
              r,
              shift_small (load_window (window bytes)) v w.bit_index z small i,
              merged,
              stores win (length-store_window _),
            )
            (ground arith),
        ap (λ c. c % 2 ^ w.bit_index) held ∙ field_before _ v w.bit_index z,
        rw
            (
              b,
              loads win (length-store_window _),
              window-store_window (load_window (window bytes) + v * 2 ^ w.bit_index),
              held,
              field_behind _ v w.bit_index z,
              mod-eq_of_lt inside,
              back,
            )
            (ground arith),
      )
