-- ===== src/Serial/Transmit/Slots.antt =====
-- The slots of the transmit ring: which of them have descriptors.
use pcie_host_driver.Prelude.{
  ℕ, zero, suc, ◌^◌, ◌≤◌, ◌<◌, ◌≡◌, ◌≢◌, sym, subst, inl, inr, Option, none, some, List, [], ◌∷◌,
  ◌++◌, arith, length, get_or, set, get_or-set_ne,
}
use pcie_host_driver.Serial.Buffers.{BufDesc}
use pcie_host_driver.Serial.Ring.{DmaDesc, empty_slot, circular_inc}
use pcie_host_driver.Serial.Ring.Places.{Steps, Steps-inc}

abbrev pub slot_bd : List DmaDesc → ℕ → Option BufDesc
slot_bd ddr i = (get_or ddr i empty_slot).bd

-- The slots from `i` on have these descriptors, and the `k` slots from `i` on have none.
abbrev pub Holds : ℕ → List DmaDesc → ℕ → List BufDesc → Type 0
Holds n ddr i [] = Unit
Holds n ddr i (b ∷ bds) = (slot_bd ddr i ≡ some b) × Holds n ddr (circular_inc i n) bds

abbrev pub Empty : ℕ → List DmaDesc → ℕ → ℕ → Type 0
Empty n ddr i zero = Unit
Empty n ddr i (suc k) = (slot_bd ddr i ≡ none) × Empty n ddr (circular_inc i n) k

module _ (n : ℕ) (small : n < 2 ^ 32) where
  -- A change at a slot that is not reached within `k` steps.
  pub Holds-frame :
      (ddr : List DmaDesc) (d : DmaDesc) (i p : ℕ) (bds : List BufDesc) (j : ℕ)
      → p < n
      → i < n
      → Steps n p i j
      → length bds ≤ j
      → Holds n ddr p bds
      → Holds n (set ddr i d) p bds
  Holds-frame ddr d i p [] j hp hi steps le holds = tt
  Holds-frame ddr d i p (b ∷ bds) zero hp hi steps le holds = absurd (omega (arith, le))
  Holds-frame ddr d i p (b ∷ bds) (suc j) hp hi steps le holds =
      let ne : i ≢ p = λ e. elim steps.1 [
        | inl x ↦ absurd (omega (arith, x, e))
        | inr x ↦ absurd (omega (arith, x, e, steps.0))
      ] in
      let (steps', hp') = Steps-inc n p i j small hp hi steps in
      (
        subst (λ s. s.bd ≡ some b) (sym (get_or-set_ne ddr i p d empty_slot ne)) holds.0,
        Holds-frame ddr d i (circular_inc p n) bds j hp' hi steps' (omega (arith, le)) holds.1,
      )

  pub Empty-frame :
      (ddr : List DmaDesc) (d : DmaDesc) (i p k j : ℕ)
      → p < n
      → i < n
      → Steps n p i j
      → k ≤ j
      → Empty n ddr p k
      → Empty n (set ddr i d) p k
  Empty-frame ddr d i p zero j hp hi steps le empty = tt
  Empty-frame ddr d i p (suc k) zero hp hi steps le empty = absurd (omega (arith, le))
  Empty-frame ddr d i p (suc k) (suc j) hp hi steps le empty =
      let ne : i ≢ p = λ e. elim steps.1 [
        | inl x ↦ absurd (omega (arith, x, e))
        | inr x ↦ absurd (omega (arith, x, e, steps.0))
      ] in
      let (steps', hp') = Steps-inc n p i j small hp hi steps in
      (
        subst (λ s. s.bd ≡ none) (sym (get_or-set_ne ddr i p d empty_slot ne)) empty.0,
        Empty-frame ddr d i (circular_inc p n) k j hp' hi steps' (omega (arith, le)) empty.1,
      )

  -- One more slot behind a run.
  pub Holds-snoc :
      (ddr : List DmaDesc) (i p : ℕ) (bds : List BufDesc) (b : BufDesc)
      → p < n
      → i < n
      → Steps n p i (length bds)
      → slot_bd ddr i ≡ some b
      → Holds n ddr p bds
      → Holds n ddr p (bds ++ (b ∷ []))
  Holds-snoc ddr i p [] b hp hi (le, steps) at holds =
      let e : i ≡ p = elim steps [
        | inl x ↦ omega (arith, x)
        | inr x ↦ absurd (omega (arith, x, hp, hi))
      ] in
      (subst (λ a. slot_bd ddr a ≡ some b) e at, tt)
  Holds-snoc ddr i p (x ∷ bds) b hp hi steps at holds =
      let (steps', hp') = Steps-inc n p i (length bds) small hp hi steps in
      (holds.0, Holds-snoc ddr i (circular_inc p n) bds b hp' hi steps' at holds.1)

  pub Empty-snoc :
      (ddr : List DmaDesc) (i p k : ℕ)
      → p < n
      → i < n
      → Steps n p i k
      → slot_bd ddr i ≡ none
      → Empty n ddr p k
      → Empty n ddr p (suc k)
  Empty-snoc ddr i p zero hp hi (le, steps) at empty =
      let e : i ≡ p = elim steps [
        | inl x ↦ omega (arith, x)
        | inr x ↦ absurd (omega (arith, x, hp, hi))
      ] in
      (subst (λ a. slot_bd ddr a ≡ none) e at, tt)
  Empty-snoc ddr i p (suc k) hp hi steps at empty =
      let (steps', hp') = Steps-inc n p i k small hp hi steps in
      (empty.0, Empty-snoc ddr i (circular_inc p n) k hp' hi steps' at empty.1)
