-- ===== src/Object/Counts.antt =====
-- Retaining and releasing: what EFRetain and EFRelease of src/EFRuntime/EFObject.c do to a count.
use emex_foundation.Base.{
  ℕ, ◌+◌, ◌-◌, ◌^◌, ◌<◌, false, ◌||◌, Option, none, some, List, if◌then◌else◌, leb, ◌==◌, ==→eq,
  ◌≡◌, refl, sym, ap, ◌∙◌, fun_ext, arith, ok, abort, Bool-cases, inl, inr,
}
use emex_foundation.Allocator.{Allocator}
use emex_foundation.Class.{Class}
use emex_foundation.Object.{
  Ref, Object, Cell, World, Code, as_object, with_refcount, counted, put, is_static, store_refcount,
  load_object, retain, release, destroy,
}

-- At `p` stands something that is no static object, and its count is `n`.
pub record Counted (w : World) (p : Ref) (n : ℕ) : Type 0 where
  pub not_null : (p == 0) ≡ false
  pub cell : Cell
  pub is : w.cells p ≡ some cell
  pub not_static : is_static (as_object cell).root_type ≡ false
  pub count : (as_object cell).refcount ≡ n

abbrev pub with_count : ℕ → Object → Object
with_count n o = record o { refcount = n }

as_object-with_refcount :
    (n : ℕ) (c : Cell) → as_object (with_refcount n c) ≡ with_count n (as_object c)
as_object-with_refcount n (Cell.object o) = refl
as_object-with_refcount n (Cell.allocator a) = refl

with_refcount-with_refcount :
    (m n : ℕ) (c : Cell) → with_refcount n (with_refcount m c) ≡ with_refcount n c
with_refcount-with_refcount m n (Cell.object o) = refl
with_refcount-with_refcount m n (Cell.allocator a) = refl

with_refcount_same : (n : ℕ) (c : Cell) → (as_object c).refcount ≡ n → with_refcount n c ≡ c
with_refcount_same n (Cell.object o) h = cc
with_refcount_same n (Cell.allocator a) h = cc

counted-counted : (m n : ℕ) (c : Option Cell) → counted n (counted m c) ≡ counted n c
counted-counted m n none = refl
counted-counted m n (some c) = ap some (with_refcount-with_refcount m n c)

put-put :
    (cells : Ref → Option Cell) (p : Ref) (c d : Option Cell)
    → put (put cells p c) p d ≡ put cells p d
put-put cells p c d = fun_ext λ q. ground arith

put_same : (cells : Ref → Option Cell) (p : Ref) → put cells p (cells p) ≡ cells
put_same cells p =
    fun_ext λ q. elim (Bool-cases (q == p)) [ inl e ↦ rw (e, ==→eq q p e) refl | inr e ↦ rw e refl ]

pub put_self : (cells : Ref → Option Cell) (p : Ref) (c : Option Cell) → put cells p c p ≡ c
put_self cells p c = ground arith

pub store_refcount-Counted :
    {w : World} {p : Ref} {n : ℕ} (m : ℕ) → Counted w p n → Counted (store_refcount w p m) p m
unfolding store_refcount
store_refcount-Counted {w} {p} m c = record {
  not_null = c.not_null;
  cell = with_refcount m c.cell;
  is = put_self w.cells p _ ∙ ap (counted m) c.is;
  not_static = ap (λ o. is_static o.root_type) (as_object-with_refcount m c.cell) ∙ c.not_static;
  count = ap (λ o. o.refcount) (as_object-with_refcount m c.cell);
}

pub store_refcount-store_refcount :
    {w : World} {p : Ref} {n : ℕ} (m k : ℕ)
    → Counted w p n
    → store_refcount (store_refcount w p m) p k ≡ store_refcount w p k
unfolding store_refcount
store_refcount-store_refcount {w} {p} m k c =
    ap (λ cells. record w { cells = cells })
      (put-put w.cells p _ _
        ∙ ap (put w.cells p)
            (ap (counted k) (put_self w.cells p _) ∙ counted-counted m k (w.cells p)))

pub store_refcount_same : {w : World} {p : Ref} {n : ℕ} → Counted w p n → store_refcount w p n ≡ w
unfolding store_refcount
store_refcount_same {w} {p} {n} c =
    ap (λ cells. record w { cells = cells })
      (ap (put w.cells p)
          (ap (counted n) c.is ∙ (ap some (with_refcount_same n c.cell c.count) ∙ sym c.is))
        ∙ put_same w.cells p)

loaded : {w : World} {p : Ref} {n : ℕ} (c : Counted w p n) → load_object w p ≡ ok (as_object c.cell)
loaded {w} {p} c = rw (c.is, load_object) refl

pub retain-store_refcount :
    {w : World} {p : Ref} {n : ℕ}
    → Counted w p n
    → n + 1 < 2 ^ 64
    → retain p w ≡ ok (store_refcount w p (n + 1))
unfolding retain
retain-store_refcount {w} {p} {n} c h =
    rw (c.not_null, loaded c, c.not_static, c.count)
      (ap (λ m. ok (store_refcount w p m)) (omega arith))

module _ (code : Code) (al : Allocator) (library : List (Option (Option Class))) where
  -- EFRelease takes one off a count above one, destroys what stands there at one, and aborts at
  -- zero and below.
  pub release-store_refcount :
      {w : World} {p : Ref} {n : ℕ}
      → Counted w p n
      → n < 2 ^ 64
      → release code al library p w ≡ (
          if n == 1
          then destroy code al library p (store_refcount w p 0)
          else if n == 0 || leb (2 ^ 63) n
          then abort
          else ok (store_refcount w p (n - 1)))
  unfolding release
  release-store_refcount {w} {p} {n} c h =
      rw (c.not_null, loaded c, c.not_static, c.count) (ground arith)
