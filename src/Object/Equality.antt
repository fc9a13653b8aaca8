-- ===== src/Object/Equality.antt =====
-- What EFEqual of src/EFRuntime/EFObject.c promises.
use emex_foundation.Base.{
  ℕ, Bool, true, false, not, Option, none, some, List, if◌then◌else◌, ◌==◌, ◌≡◌, ◌⊎◌, refl, sym, ap,
  ◌∙◌, arith, Run, ok, fault, abort, ◌>>=◌, Bool-cases, Option-cases, inl, inr, ==→eq, fun_ext,
}
use emex_foundation.Allocator.{Allocator}
use emex_foundation.Class.{Class}
use emex_foundation.Object.{
  Ref, World, Code, get_type_id, get_class, equal, equal_by_class, load_object, as_object,
}

module _ (code : Code) (al : Allocator) (library : List (Option (Option Class))) where
  abbrev compared : Ref → Ref → World → ℕ → ℕ → Run (Bool × World)
  compared p q w a b =
      if not (a == b)
      then ok (false, w)
      else (get_class code al library a w >>= λ r. equal_by_class code al library r.0 p q r.1)

  equal_distinct :
      (p q : Ref) (w : World)
      → (p == 0) ≡ false
      → (q == 0) ≡ false
      → (p == q) ≡ false
      → equal code al library p q w
        ≡ (get_type_id w p >>= λ a. get_type_id w q >>= compared p q w a)
  unfolding equal
  equal_distinct p q w hp hq h = rw (hp, hq, h) refl

  equal_by_class_comm :
      ((h : ℕ) (p q : Ref) (w : World) → code.equal h p q w ≡ code.equal h q p w)
      → (c : Option Class) (p q : Ref) (w : World)
      → equal_by_class code al library c p q w ≡ equal_by_class code al library c q p w
  equal_by_class_comm s none p q w = refl
  equal_by_class_comm s (some class) p q w = elim (Option-cases class.handlers.equal) [
    | inl n ↦ rw n refl
    | inr (h, n) ↦ rw n (s h p q w)
  ]

  compared_comm :
      ((h : ℕ) (p q : Ref) (w : World) → code.equal h p q w ≡ code.equal h q p w)
      → (p q : Ref) (w : World) (a b : ℕ) → compared p q w a b ≡ compared q p w b a
  compared_comm s p q w a b = elim (Bool-cases (a == b)) [
    | inl e ↦ rw (==→eq a b e) (
        ap (λ k. if not (b == b) then ok (false, w) else (get_class code al library b w >>= k))
          (fun_ext λ r. equal_by_class_comm s r.0 p q r.1))
    | inr e ↦ ground arith
  ]

  get_type_id-cases :
      (w : World) (p : Ref) → (get_type_id w p ≡ fault) ⊎ ((a : ℕ) × (get_type_id w p ≡ ok a))
  get_type_id-cases w p = elim (Bool-cases (p == 0)) [
    | inl hp ↦ inr (0, rw hp refl)
    | inr hp ↦ elim (Option-cases (w.cells p)) [
      | inl e ↦ inl (rw (hp, e, load_object) refl)
      | inr (c, e) ↦ inr ((as_object c).type_id, rw (hp, e, load_object) refl)
    ]
  ]

  types_comm :
      {A : Type 0} (m n : Run ℕ) (k : ℕ → ℕ → Run A)
      → (m ≡ fault) ⊎ ((a : ℕ) × (m ≡ ok a))
      → (n ≡ fault) ⊎ ((a : ℕ) × (n ≡ ok a))
      → (m >>= λ a. n >>= k a) ≡ (n >>= λ b. m >>= λ a. k a b)
  types_comm m n k (inl e) (inl f) = rw (e, f) refl
  types_comm m n k (inl e) (inr (b, f)) = rw (e, f) refl
  types_comm m n k (inr (a, e)) (inl f) = rw (e, f) refl
  types_comm m n k (inr (a, e)) (inr (b, f)) = rw (e, f) refl

  -- EFEqual does not depend on the order of its arguments, if the handlers of the classes do not.
  pub equal_comm :
      ((h : ℕ) (p q : Ref) (w : World) → code.equal h p q w ≡ code.equal h q p w)
      → (p q : Ref) (w : World) → equal code al library p q w ≡ equal code al library q p w
  unfolding equal
  equal_comm s p q w = elim (Bool-cases (p == 0)) [
    | inl hp ↦ ground arith
    | inr hp ↦ elim (Bool-cases (q == 0)) [
      | inl hq ↦ ground arith
      | inr hq ↦ elim (Bool-cases (p == q)) [
        | inl h ↦ ground arith
        | inr h ↦
            equal_distinct p q w hp hq h
            ∙ (types_comm (get_type_id w p) (get_type_id w q) (compared p q w)
                  (get_type_id-cases w p) (get_type_id-cases w q)
                ∙ (ap (◌>>=◌ (get_type_id w q)) (
                      fun_ext
                        λ b. ap (◌>>=◌ (get_type_id w p)) (fun_ext λ a. compared_comm s p q w a b))
                    ∙ sym (equal_distinct q p w hq hp (ground arith))))
      ]
    ]
  ]

  compared-true :
      (p q : Ref) (w : World) (a b : ℕ) {w' : World} → compared p q w a b ≡ ok (true, w') → a ≡ b
  compared-true p q w a b h = elim (Bool-cases (a == b)) [
    | inl e ↦ ==→eq a b e
    | inr e ↦ ground arith
  ]

  types_true :
      (m n : Run ℕ) (p q : Ref) (w : World) {w' : World}
      → (m >>= λ a. n >>= compared p q w a) ≡ ok (true, w')
      → m ≡ n
  types_true (ok a) (ok b) p q w h = ap ok (compared-true p q w a b h)
  types_true (ok a) fault p q w h = cc
  types_true (ok a) abort p q w h = cc
  types_true fault n p q w h = cc
  types_true abort n p q w h = cc

  -- Two references that EFEqual calls equal are not NULL and have one type.
  pub equal-get_type_id :
      (p q : Ref) (w w' : World)
      → equal code al library p q w ≡ ok (true, w')
      → ((p == 0) ≡ false) × ((q == 0) ≡ false) × (get_type_id w p ≡ get_type_id w q)
  unfolding equal
  equal-get_type_id p q w w' h = elim (Bool-cases (p == 0)) [
    | inl hp ↦ absurd (ground arith)
    | inr hp ↦ elim (Bool-cases (q == 0)) [
      | inl hq ↦ absurd (ground arith)
      | inr hq ↦ elim (Bool-cases (p == q)) [
        | inl e ↦ (hp, hq, ap (get_type_id w) (==→eq p q e))
        | inr e ↦ (
          hp,
          hq,
          types_true (get_type_id w p) (get_type_id w q) p q w
              (sym (equal_distinct p q w hp hq e) ∙ h),
        )
      ]
    ]
  ]
