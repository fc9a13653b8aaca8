-- ===== src/BitWalker/Tests.antt =====
-- A field of src/EFBitWalker.c in a file of one window.
use emex_foundation.Base.{
  inl, inr, some, ℕ, ◌%◌, ◌^◌, true, List, [], ◌∷◌, ◌≡◌, refl, ap, arith, length, pos, ok,
}
use emex_foundation.BitWalker.{
  Handle, BitWalker, window, load_window, advance, write, read, get_position, set_position, bswap_n,
  to_endian,
}
use emex_foundation.BitWalker.Roundtrip.{read-write}

-- The bytes of the file; each read gives them all, and each write replaces them.
abbrev one_window : Handle (List ℕ)
one_window = record {
  seek = λ p f. f;
  read = λ n f. (pos (length f), f, f);
  write = λ bytes f. (pos (length bytes), bytes);
  sync = λ f. f;
}

-- The cursor stands behind three bits of the first byte.
abbrev walker : BitWalker (List ℕ)
walker = record { file = 5 ∷ []; byte_pos = pos 0; bit_index = 3; endian = 1 }

before : load_window (window (5 ∷ [])) ≡ 5
unfolding load_window
before = refl

read-write_example :
    (win : List ℕ) × (write one_window 300 16 (some walker)
      ≡ ok (true, some (advance one_window 16 (record walker { file = win }))))
    × (load_window win % 2 ^ 3 ≡ load_window (window (5 ∷ [])))
    × (read one_window 16 (
          set_position one_window
            (get_position one_window (some walker))
            (some (advance one_window 16 (record walker { file = win }))))
        ≡ ok (300, some (record walker { file = win })))
read-write_example =
    read-write one_window walker 300 16 1 (5 ∷ []) (5 ∷ []) (λ win. win) (λ win. win) refl
      (inr (inl refl)) (omega arith) (omega arith) refl (omega (arith, before))
      (λ win e. ap (λ n. (pos n, win)) e) (λ win e. ap (λ n. (pos n, win, win)) e)

-- Three bytes in the other order.
swapped : bswap_n 66051 3 ≡ 197121
unfolding bswap_n
swapped = refl

-- Twelve bits in big-endian order.
twelve_bits : to_endian 1 12 (to_endian 1 12 2748 % 2 ^ 12) ≡ 2572
unfolding bswap_n
twelve_bits = refl
