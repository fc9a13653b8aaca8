-- ===== src/String/Splitting.antt =====
-- The split of src/EFString.c against cuts of the text at a separator.
use emex_foundation.Base.{
  ◌+◌, ℕ, zero, suc, ◌-◌, ◌≤◌, true, false, List, [], ◌∷◌, ◌++◌, ◌≡◌, refl, sym, ap, ◌∙◌, inl, inr,
  arith, if◌then◌else◌, Bool-cases, length, length-append, append_assoc, append-nil,
}
use emex_foundation.String.Prefix.{starts_with, starts_with_iff}

-- The pieces of a text between separators: `skip` characters of a separator are still to be passed
-- over, and `cur` is the piece so far.
unfoldable pub cut : List ℕ → ℕ → List ℕ → List ℕ → List (List ℕ)
cut ys skip cur [] = cur ∷ []
cut ys (suc skip) cur (c ∷ cs) = cut ys skip cur cs
cut ys zero cur (c ∷ cs) =
    let found = cut ys (length ys - 1) [] cs in
    let more = cut ys zero (cur ++ c ∷ []) cs in
    if starts_with ys (c ∷ cs) then cur ∷ found else more

-- The pieces that are not empty.
abbrev pub nonempty : List (List ℕ) → List (List ℕ)
nonempty [] = []
nonempty ([] ∷ ps) = nonempty ps
nonempty ((c ∷ cs) ∷ ps) = (c ∷ cs) ∷ nonempty ps

-- The components of a text.
abbrev pub components : List ℕ → List ℕ → List (List ℕ)
components ys xs = nonempty (cut ys 0 [] xs)

-- The pieces with the separator between them.
abbrev pub join : List ℕ → List (List ℕ) → List ℕ
join ys [] = []
join ys (p ∷ []) = p
join ys (p ∷ q ∷ ps) = p ++ (ys ++ join ys (q ∷ ps))

-- At how many places of the text `ys` stands.
abbrev pub hits : List ℕ → List ℕ → ℕ
hits ys [] = 0
hits ys (c ∷ cs) = if starts_with ys (c ∷ cs) then hits ys cs + 1 else hits ys cs

cut-skip :
    (ys : List ℕ) (zs rest : List ℕ) (cur : List ℕ)
    → cut ys (length zs) cur (zs ++ rest) ≡ cut ys 0 cur rest
unfolding cut
cut-skip ys [] rest cur = refl
cut-skip ys (z ∷ zs) rest cur = cut-skip ys zs rest cur

-- A separator ends the piece.
pub cut-separator :
    (y : ℕ) (ys cur rest : List ℕ)
    → cut (y ∷ ys) 0 cur ((y ∷ ys) ++ rest) ≡ cur ∷ cut (y ∷ ys) 0 [] rest
unfolding cut
cut-separator y ys cur rest =
    let found : starts_with (y ∷ ys) (y ∷ (ys ++ rest)) ≡ true =
      (starts_with_iff (y ∷ ys) (y ∷ (ys ++ rest))).1 (rest, refl) in
    let size : length (y ∷ ys) - 1 ≡ length ys = omega arith in
    rw (found, size) (ap (◌∷◌ cur) (cut-skip (y ∷ ys) ys rest []))

pub cut-other :
    (ys cur : List ℕ) (c : ℕ) (cs : List ℕ)
    → starts_with ys (c ∷ cs) ≡ false
    → cut ys 0 cur (c ∷ cs) ≡ cut ys 0 (cur ++ c ∷ []) cs
unfolding cut
cut-other ys cur c cs h = rw h refl

cut-ne-nil :
    (ys : List ℕ) (skip : ℕ) (cur xs : List ℕ)
    → (p : List ℕ) × ((ps : List (List ℕ)) × (cut ys skip cur xs ≡ p ∷ ps))
unfolding cut
cut-ne-nil ys skip cur [] = (cur, ([], refl))
cut-ne-nil ys (suc skip) cur (c ∷ cs) = cut-ne-nil ys skip cur cs
cut-ne-nil ys zero cur (c ∷ cs) = elim (Bool-cases (starts_with ys (c ∷ cs))) [
  | inl h ↦ (cur, (cut ys (length ys - 1) [] cs, rw h refl))
  | inr h ↦ let (p, (ps, e)) = cut-ne-nil ys 0 (cur ++ c ∷ []) cs in (p, (ps, rw h e))
]

join-step :
    (ys p : List ℕ) (ps : List (List ℕ)) (q : List ℕ) (qs : List (List ℕ))
    → ps ≡ q ∷ qs
    → join ys (p ∷ ps) ≡ p ++ (ys ++ join ys ps)
join-step ys p ps q qs e = rw e refl

-- Joining the pieces gives the text back.
pub join-cut_fuel :
    (fuel y : ℕ) (ys cur xs : List ℕ)
    → length xs ≤ fuel
    → join (y ∷ ys) (cut (y ∷ ys) 0 cur xs) ≡ cur ++ xs
unfolding cut
join-cut_fuel fuel y ys cur [] h = sym (append-nil cur)
join-cut_fuel zero y ys cur (c ∷ cs) h = absurd (omega arith)
join-cut_fuel (suc fuel) y ys cur (c ∷ cs) h = elim (Bool-cases (starts_with (y ∷ ys) (c ∷ cs))) [
  | inr no_match ↦
      ap (join (y ∷ ys)) (cut-other (y ∷ ys) cur c cs no_match)
      ∙ join-cut_fuel fuel y ys (cur ++ c ∷ []) cs (omega arith)
      ∙ append_assoc cur (c ∷ []) cs
  | inl match ↦
      let (rest, is) = (starts_with_iff (y ∷ ys) (c ∷ cs)).0 match in
      let (q, (qs, e)) = cut-ne-nil (y ∷ ys) 0 [] rest in
      let shorter : length rest ≤ fuel = omega (arith, ap length is, length-append ys rest) in
      ap (λ l. join (y ∷ ys) (cut (y ∷ ys) 0 cur l)) is
      ∙ ap (join (y ∷ ys)) (cut-separator y ys cur rest)
      ∙ join-step (y ∷ ys) cur (cut (y ∷ ys) 0 [] rest) q qs e
      ∙ ap (λ l. cur ++ ((y ∷ ys) ++ l)) (join-cut_fuel fuel y ys [] rest shorter)
      ∙ ap (◌++◌ cur) (sym is)
]
