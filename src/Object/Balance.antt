-- ===== src/Object/Balance.antt =====
-- Sequences of EFRetain and EFRelease on one object, by one thread or by several: each changes the
-- count in one atomic step.
use emex_foundation.Base.{
  ℕ, ◌+◌, ◌-◌, ◌^◌, ◌<◌, Option, none, some, List, [], ◌∷◌, ◌++◌, if◌then◌else◌, ltb, ◌≡◌, refl,
  sym, ap, ◌∙◌, arith, length, Run, ok, ◌>>=◌, some_inj, Bool-cases, inl, inr, ltb→lt, fun_ext,
  >>=_ok, >>=_assoc,
}
use emex_foundation.Allocator.{Allocator}
use emex_foundation.Class.{Class}
use emex_foundation.Object.{Ref, World, Code, store_refcount, retain, release, destroy}
use emex_foundation.Object.Counts.{
  Counted, store_refcount-Counted, store_refcount-store_refcount, store_refcount_same,
  retain-store_refcount, release-store_refcount,
}

pub data Step : Type 0 where
  retained : Step
  released : Step

-- The count after the steps, if it is never taken to zero.
abbrev pub count_after : List Step → ℕ → Option ℕ
count_after [] n = some n
count_after (retained ∷ steps) n = count_after steps (n + 1)
count_after (released ∷ steps) n = if ltb 1 n then count_after steps (n - 1) else none

module _ (code : Code) (al : Allocator) (library : List (Option (Option Class))) where
  abbrev pub run : List Step → Ref → World → Run World
  run [] p w = ok w
  run (retained ∷ steps) p w = retain p w >>= run steps p
  run (released ∷ steps) p w = release code al library p w >>= run steps p

  release_above_one :
      {w : World} {p : Ref} {n : ℕ}
      → Counted w p n
      → n < 2 ^ 63
      → 1 < n
      → release code al library p w ≡ ok (store_refcount w p (n - 1))
  release_above_one c h k = release-store_refcount code al library c (omega arith) ∙ ground arith

  pub release_at_one :
      {w : World} {p : Ref}
      → Counted w p 1
      → release code al library p w ≡ destroy code al library p (store_refcount w p 0)
  release_at_one c = release-store_refcount code al library c (omega arith)

  -- Retains and releases of an object, of a count that stays above zero and below 2^63: the count
  -- goes up by one with each retain and down by one with each release, and nothing else changes.
  pub run-count_after :
      (steps : List Step) {w : World} {p : Ref} {n m : ℕ}
      → Counted w p n
      → n + length steps < 2 ^ 63
      → count_after steps n ≡ some m
      → run steps p w ≡ ok (store_refcount w p m)
  run-count_after [] {w} {p} c h e =
      ap ok (sym (store_refcount_same c) ∙ ap (store_refcount w p) (some_inj e))
  run-count_after (retained ∷ steps) {w} {p} {n} {m} c h e =
      rw (retain-store_refcount c (omega arith)) (
        run-count_after steps (store_refcount-Counted (n + 1) c) (omega arith) e
        ∙ ap ok (store_refcount-store_refcount (n + 1) m c))
  run-count_after (released ∷ steps) {w} {p} {n} {m} c h e = elim (Bool-cases (ltb 1 n)) [
    | inl k ↦ rw (release_above_one c (omega arith) (ltb→lt 1 n k)) (
        run-count_after steps (store_refcount-Counted (n - 1) c) (omega arith) (ground arith)
        ∙ ap ok (store_refcount-store_refcount (n - 1) m c))
    | inr k ↦ absurd (ground arith)
  ]

  run-append :
      (xs ys : List Step) (p : Ref) (w : World) → run (xs ++ ys) p w ≡ (run xs p w >>= run ys p)
  run-append [] ys p w = refl
  run-append (retained ∷ xs) ys p w =
      ap (◌>>=◌ (retain p w)) (fun_ext λ v. run-append xs ys p v)
      ∙ sym (>>=_assoc (retain p w) (run xs p) (run ys p))
  run-append (released ∷ xs) ys p w =
      ap (◌>>=◌ (release code al library p w)) (fun_ext λ v. run-append xs ys p v)
      ∙ sym (>>=_assoc (release code al library p w) (run xs p) (run ys p))

  -- Retains and releases of an object, of a count that stays above zero and below 2^63: with as
  -- many of the one as of the other nothing has changed; and where they leave one reference, one
  -- more release destroys the object.
  pub run_balanced :
      (steps : List Step) {w : World} {p : Ref} {n m : ℕ}
      → Counted w p n
      → n + length steps < 2 ^ 63
      → count_after steps n ≡ some m
      → (m ≡ n → run steps p w ≡ ok w)
        × (m ≡ 1
            → run (steps ++ released ∷ []) p w ≡ destroy code al library p (store_refcount w p 0))
  run_balanced steps {w} {p} {n} {m} c h e = (
    λ q. run-count_after steps c h e ∙ ap ok (ap (store_refcount w p) q ∙ store_refcount_same c),
    λ q.
        rw (run-append steps (released ∷ []) p w, run-count_after steps c h e, q)
          (>>=_ok _
            ∙ (release_at_one (store_refcount-Counted 1 c)
                ∙ ap (destroy code al library p) (store_refcount-store_refcount 1 0 c))),
  )
