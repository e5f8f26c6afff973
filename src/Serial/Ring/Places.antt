-- ===== src/Serial/Ring/Places.antt =====
-- The places of a ring, and its slots.
use pcie_host_driver.Prelude.{
  ℕ, zero, suc, ◌+◌, ◌-◌, ◌%◌, ◌^◌, ◌<◌, ◌≡◌, ap, ◌∙◌, ◌⊎◌, inl, inr, true, some, List, [], ◌∷◌,
  arith, dec_lt, length, get_or, set, is_some, is_some-some,
}
use native.Mathlib.Nat.{mod-eq_of_lt, mod_self}
use pcie_host_driver.Serial.Buffers.{BufDesc}
use pcie_host_driver.Serial.Ring.{DmaDesc, empty_slot, circular_inc}

-- Every slot of a ring has a descriptor.
abbrev pub AllHeld : List DmaDesc → Type 0
AllHeld [] = Unit
AllHeld (d ∷ ds) = (is_some d.bd ≡ true) × AllHeld ds

pub AllHeld-get :
    (ddr : List DmaDesc) (i : ℕ)
    → AllHeld ddr
    → i < length ddr
    → (b : BufDesc) × ((get_or ddr i empty_slot).bd ≡ some b)
AllHeld-get [] i all h = absurd (omega (arith, h))
AllHeld-get (d ∷ ds) zero all h = is_some-some d.bd all.0
AllHeld-get (d ∷ ds) (suc i) all h = AllHeld-get ds i all.1 (omega (arith, h))

pub AllHeld-set :
    (ddr : List DmaDesc) (i : ℕ) (d : DmaDesc)
    → AllHeld ddr
    → is_some d.bd ≡ true
    → AllHeld (set ddr i d)
AllHeld-set [] i d all h = tt
AllHeld-set (x ∷ ddr) zero d all h = (h, all.1)
AllHeld-set (x ∷ ddr) (suc i) d all h = (all.0, AllHeld-set ddr i d all.1 h)

-- the places of a ring of `n`, one after another
pub circular_inc-cases :
    (v n : ℕ)
    → v < n
    → n < 2 ^ 32
    → ((suc v < n) × (circular_inc v n ≡ suc v)) ⊎ ((suc v ≡ n) × (circular_inc v n ≡ 0))
unfolding circular_inc
circular_inc-cases v n h small =
    let step : (v + 1) % 2 ^ 32 ≡ suc v = omega (arith, h, small) in
    elim (dec_lt (suc v) n) [
      | yes lt ↦ inl (lt, ap (λ a. a % n) step ∙ mod-eq_of_lt lt)
      | no ge ↦
          let e : suc v ≡ n = omega (arith, ge, h) in
          inr (e, ap (λ a. a % n) step ∙ ap (λ a. a % n) e ∙ mod_self n)
    ]

-- `k` steps lead from `head` to `tail` on a ring of `n`.
abbrev pub Steps : ℕ → ℕ → ℕ → ℕ → Type 0
Steps n head tail k = (k < n) × ((head + k ≡ tail) ⊎ (head + k ≡ tail + n))

pub Steps-inc :
    (n head tail k : ℕ)
    → n < 2 ^ 32
    → head < n
    → tail < n
    → Steps n head tail (suc k)
    → Steps n (circular_inc head n) tail k × (circular_inc head n < n)
Steps-inc n head tail k small h t (le, s) = elim (circular_inc-cases head n h small) [
  | inl (more, e) ↦ (
    (
      omega (arith, le),
      elim s [ inl x ↦ inl (omega (arith, x, e)) | inr x ↦ inr (omega (arith, x, e)) ],
    ),
    omega (arith, more, e),
  )
  | inr (last, e) ↦ (
    (
      omega (arith, le),
      elim s [
        | inl x ↦ absurd (omega (arith, x, last, t))
        | inr x ↦ inl (omega (arith, x, e, last))
      ],
    ),
    omega (arith, last, e),
  )
]

-- the way around, from the place behind a place back to it
pub Steps-around : (n i : ℕ) → i < n → n < 2 ^ 32 → Steps n (circular_inc i n) i (n - 1)
Steps-around n i h small = elim (circular_inc-cases i n h small) [
  | inl (more, e) ↦ (omega (arith, h), inr (omega (arith, e, h)))
  | inr (last, e) ↦ (omega (arith, h), inl (omega (arith, e, last)))
]

pub Steps-exist : (n head tail : ℕ) → head < n → tail < n → (k : ℕ) × Steps n head tail k
Steps-exist n head tail h t = elim (dec_lt tail head) [
  | yes lt ↦ (tail + n - head, (omega (arith, lt, h, t), inr (omega (arith, lt, h, t))))
  | no ge ↦ (tail - head, (omega (arith, ge, h, t), inl (omega (arith, ge, h, t))))
]
