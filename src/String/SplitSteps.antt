-- ===== src/String/SplitSteps.antt =====
-- The rounds of the split loop of src/EFString.c.
use emex_foundation.Base.{ℕ, suc, ◌+◌, ◌-◌, true, false, none, some, ◌≡◌, refl, leb, ltb, ok}
use emex_foundation.Allocator.{Allocator}
use emex_foundation.Data.{Block}
use emex_foundation.String.Model.{String}
use emex_foundation.String.Split.{
  Components, Scan, split_round, split_loop, append_component, separator_at,
}

module _ (al : Allocator) (s : String) (text separator : Block) (m : ℕ) (fuel : ℕ)
    (scan : Scan) where
  pub split_loop-end :
      ltb scan.i s.length ≡ false
      → split_loop al s text separator m (suc fuel) scan ≡ some (ok (some scan))
  unfolding split_loop split_round
  split_loop-end h = rw h refl

  pub split_loop-other :
      ltb scan.i s.length ≡ true
      → separator_at text scan.i separator m ≡ ok false
      → split_loop al s text separator m (suc fuel) scan
        ≡ split_loop al s text separator m fuel (record scan { i = scan.i + 1 })
  unfolding split_loop split_round
  split_loop-other h e = rw (h, e) refl

  pub split_loop-empty :
      ltb scan.i s.length ≡ true
      → separator_at text scan.i separator m ≡ ok true
      → leb scan.i scan.last ≡ true
      → split_loop al s text separator m (suc fuel) scan
        ≡ split_loop al s text separator m fuel (record scan { i = scan.i + m; last = scan.i + m })
  unfolding split_loop split_round
  split_loop-empty h e l = rw (h, e, l) refl

  pub split_loop-null :
      ltb scan.i s.length ≡ true
      → separator_at text scan.i separator m ≡ ok true
      → leb scan.i scan.last ≡ false
      → append_component al s text separator m
          (ok none)
          scan.last
          (scan.i - scan.last)
          scan.components
        ≡ ok none
      → split_loop al s text separator m (suc fuel) scan ≡ some (ok none)
  unfolding split_loop split_round
  split_loop-null h e l a = rw (h, e, l, a) refl

  pub split_loop-added :
      {c : Components}
      → ltb scan.i s.length ≡ true
      → separator_at text scan.i separator m ≡ ok true
      → leb scan.i scan.last ≡ false
      → append_component al s text separator m
          (ok none)
          scan.last
          (scan.i - scan.last)
          scan.components
        ≡ ok (some c)
      → split_loop al s text separator m (suc fuel) scan
        ≡ split_loop al s text separator m fuel
            (record { i = scan.i + m; last = scan.i + m; components = c })
  unfolding split_loop split_round
  split_loop-added h e l a = rw (h, e, l, a) refl
