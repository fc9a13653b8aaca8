-- ===== src/Object/Describe.antt =====
-- EFCopyDescription and EFCopyDebugDescription of src/EFRuntime/EFObject.c.
use emex_foundation.Base.{
  ℕ, false, Option, none, some, List, ◌≡◌, ◌⊎◌, arith, if◌then◌else◌, ◌==◌, Run, ok, ◌>>=◌,
  >>=-eq-ok, Bool-cases, inl, inr,
}
use emex_foundation.Allocator.{Allocator}
use emex_foundation.Class.{Class}
use emex_foundation.Object.{
  Ref, RootType, Object, World, Code, load_object, get_class, not_a_root_type, root_allocator,
  root_object, root_static_object,
}

-- The strings "<nil>" and "<unknown>", the handlers of clients, and the formatter of EFString, which
-- is asked for "<%s %p>" on an allocator and for "<%@ %p>" on an object: the allocator to use, the
-- name and the reference. NULL is a failure.
pub record Describers : Type 0 where
  pub nil_string : Ref
  pub unknown_string : Ref
  pub describe : ℕ → Ref → World → Run (Ref × World)
  pub format_allocator : Ref → Ref → Ref → World → Run (Ref × World)
  pub format_object : Ref → Option ℕ → Ref → World → Run (Ref × World)

module _ (d : Describers) where
  abbrev pub or_string : Ref → Ref × World → Run (Ref × World)
  or_string fallback r = if r.0 == 0 then ok (fallback, r.1) else ok r

  -- What stands behind the handlers: the name of the class.
  abbrev pub by_name : Class → Ref → Ref → World → Run (Ref × World)
  by_name class from p w = d.format_object from class.name p w >>= or_string d.nil_string

  abbrev pub by_handler : ℕ → Class → Ref → Ref → World → Run (Ref × World)
  by_handler h class from p w =
      d.describe h p w >>= λ r. if r.0 == 0 then by_name class from p r.1 else ok r

  -- The second handler is asked only where there is no first one.
  abbrev pub by_handlers : Option ℕ → Option ℕ → Class → Ref → Ref → World → Run (Ref × World)
  by_handlers (some h) second class from p w = by_handler h class from p w
  by_handlers none (some h) class from p w = by_handler h class from p w
  by_handlers none none class from p w = by_name class from p w

  abbrev pub by_class :
      (Class → Option ℕ) → (Class → Option ℕ) → Option Class → Ref → Ref → World → Run (Ref × World)
  by_class first second none from p w = ok (d.nil_string, w)
  by_class first second (some class) from p w =
      by_handlers (first class) (second class) class from p w

  module _ (code : Code) (al : Allocator) (library : List (Option (Option Class))) where
    -- An allocator is read as an object: its name stands where the type does, and the pointer to its
    -- data where the allocator does.
    abbrev pub by_root :
        (Class → Option ℕ)
        → (Class → Option ℕ)
        → RootType
        → Object
        → Ref
        → World
        → Run (Ref × World)
    by_root first second root_allocator o p w =
        d.format_allocator o.allocator o.type_id p w >>= or_string d.unknown_string
    by_root first second not_a_root_type o p w = ok (d.unknown_string, w)
    by_root first second root_object o p w =
        get_class code al library o.type_id w >>= λ r. by_class first second r.0 o.allocator p r.1
    by_root first second root_static_object o p w =
        get_class code al library o.type_id w >>= λ r. by_class first second r.0 o.allocator p r.1

    abbrev pub copy_any : (Class → Option ℕ) → (Class → Option ℕ) → Ref → World → Run (Ref × World)
    copy_any first second p w =
        if p == 0
        then ok (d.nil_string, w)
        else (load_object w p >>= λ o. by_root first second o.root_type o p w)

    -- `EFCopyDescription`
    unfoldable pub copy_description : Ref → World → Run (Ref × World)
    copy_description =
        copy_any (λ c. c.handlers.copy_description) (λ c. c.handlers.copy_debug_description)

    -- `EFCopyDebugDescription`
    unfoldable pub copy_debug_description : Ref → World → Run (Ref × World)
    copy_debug_description =
        copy_any (λ c. c.handlers.copy_debug_description) (λ c. c.handlers.copy_description)

  module _ (nil : (d.nil_string == 0) ≡ false) (unknown : (d.unknown_string == 0) ≡ false) where
    or_string-not_null :
        (f : Ref) (r : Ref × World) {s : Ref} {w : World}
        → (f == 0) ≡ false
        → or_string f r ≡ ok (s, w)
        → (s == 0) ≡ false
    or_string-not_null f r e h = elim (Bool-cases (r.0 == 0)) [
      | inl z ↦ ground arith
      | inr z ↦ ground arith
    ]

    by_name-not_null :
        (class : Class) (from p : Ref) (w : World) {s : Ref} {w' : World}
        → by_name class from p w ≡ ok (s, w')
        → (s == 0) ≡ false
    by_name-not_null class from p w h =
        let (r, _, e) = >>=-eq-ok (d.format_object from class.name p w) _ h in
        or_string-not_null d.nil_string r nil e

    by_handler-not_null :
        (h : ℕ) (class : Class) (from p : Ref) (w : World) {s : Ref} {w' : World}
        → by_handler h class from p w ≡ ok (s, w')
        → (s == 0) ≡ false
    by_handler-not_null h class from p w {s} {w'} q =
        let (r, _, e) = >>=-eq-ok (d.describe h p w) _ q in
        elim (Bool-cases (r.0 == 0)) [
          | inl z ↦ by_name-not_null class from p r.1 {s = s} {w' = w'} (ground arith)
          | inr z ↦ ground arith
        ]

    by_handlers-not_null :
        (first second : Option ℕ) (class : Class) (from p : Ref) (w : World) {s : Ref} {w' : World}
        → by_handlers first second class from p w ≡ ok (s, w')
        → (s == 0) ≡ false
    by_handlers-not_null (some h) second class from p w q = by_handler-not_null h class from p w q
    by_handlers-not_null none (some h) class from p w q = by_handler-not_null h class from p w q
    by_handlers-not_null none none class from p w q = by_name-not_null class from p w q

    by_class-not_null :
        (first second : Class → Option ℕ) (class : Option Class) (from p : Ref) (w : World)
        {s : Ref} {w' : World}
        → by_class first second class from p w ≡ ok (s, w')
        → (s == 0) ≡ false
    by_class-not_null first second none from p w q = ground (arith, nil)
    by_class-not_null first second (some class) from p w q =
        by_handlers-not_null (first class) (second class) class from p w q

    module _ (code : Code) (al : Allocator) (library : List (Option (Option Class))) where
      by_root-not_null :
          (first second : Class → Option ℕ) (t : RootType) (o : Object) (p : Ref) (w : World)
          {s : Ref} {w' : World}
          → by_root code al library first second t o p w ≡ ok (s, w')
          → (s == 0) ≡ false
      by_root-not_null first second root_allocator o p w q =
          let (r, _, e) = >>=-eq-ok (d.format_allocator o.allocator o.type_id p w) _ q in
          or_string-not_null d.unknown_string r unknown e
      by_root-not_null first second not_a_root_type o p w q = ground (arith, unknown)
      by_root-not_null first second root_object o p w q =
          let (r, _, e) = >>=-eq-ok (get_class code al library o.type_id w) _ q in
          by_class-not_null first second r.0 o.allocator p r.1 e
      by_root-not_null first second root_static_object o p w q =
          let (r, _, e) = >>=-eq-ok (get_class code al library o.type_id w) _ q in
          by_class-not_null first second r.0 o.allocator p r.1 e

      copy_any-not_null :
          (first second : Class → Option ℕ) (p : Ref) (w : World) {s : Ref} {w' : World}
          → copy_any code al library first second p w ≡ ok (s, w')
          → (s == 0) ≡ false
      copy_any-not_null first second p w {s} {w'} q = elim (Bool-cases (p == 0)) [
        | inl z ↦ ground (arith, nil)
        | inr z ↦
            let found : (load_object w p >>= λ o.
            by_root code al library first second o.root_type o p w)
                ≡ ok (s, w') =
              ground arith in
            let (o, _, e) = >>=-eq-ok (load_object w p) _ found in
            by_root-not_null first second o.root_type o p w e
      ]

      -- A description is never NULL, nor is a debug description: not for NULL, not for what is no
      -- object, and not where a handler or the formatter fails.
      pub copy_description-not_null :
          (p : Ref) (w w' : World) (s : Ref)
          → (copy_description code al library p w ≡ ok (s, w'))
            ⊎ (copy_debug_description code al library p w ≡ ok (s, w'))
          → (s == 0) ≡ false
      unfolding copy_description copy_debug_description
      copy_description-not_null p w w' s (inl q) = copy_any-not_null _ _ p w q
      copy_description-not_null p w w' s (inr q) = copy_any-not_null _ _ p w q
