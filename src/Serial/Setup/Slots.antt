-- ===== src/Serial/Setup/Slots.antt =====
-- serial/mxlk/mxlk_core.c: the slots of the receive ring that `mxlk_txrx_init` fills.
use pcie_host_driver.Prelude.{
  ℕ_discrete, get_or-set_ne, ℕ, zero, suc, ◌+◌, ◌*◌, ◌≤◌, ◌<◌, ◌≡◌, refl, sym, ap, subst, ◌∙◌, Bool,
  true, false, none, some, inl, inr, List, [], ◌∷◌, arith, Option-cases, length, set, is_some,
  length-set,
}
use pcie_host_driver.Mmio.{rd32}
use pcie_host_driver.Mmio.Laws.{Apart, rd32-wr32_ne, rd32-wr64_ne}
use pcie_host_driver.Serial.Buffers.{BufDesc, pool_alloc}
use pcie_host_driver.Serial.Buffers.Pool.{held}
use pcie_host_driver.Serial.Ring.{
  DmaDesc, empty_slot, Mxlk, Dma, map_dma, td_at, set_td_address, set_td_length,
}
use pcie_host_driver.Serial.Ring.Places.{AllHeld}
use pcie_host_driver.Serial.Ring.Arrivals.{refilled, refilled-SameOn}
use pcie_host_driver.Serial.Ring.Refilled.{mapped, Fresh, Fresh-refilled, Fresh-SameOn}
use pcie_host_driver.Serial.Ring.Receive.{pool_alloc-held}
use pcie_host_driver.Serial.Ring.Turns.{pool_alloc-none}
use pcie_host_driver.Serial.Setup.{fill_ring}

-- The slots before `i` have descriptors.
abbrev HeldBelow : ℕ → List DmaDesc → Type 0
HeldBelow zero ddr = Unit
HeldBelow (suc i) [] = Unit
HeldBelow (suc i) (d ∷ ddr) = (is_some d.bd ≡ true) × HeldBelow i ddr

HeldBelow-set :
    (i : ℕ) (ddr : List DmaDesc) (d : DmaDesc)
    → HeldBelow i ddr
    → is_some d.bd ≡ true
    → HeldBelow (suc i) (set ddr i d)
HeldBelow-set zero [] d below h = tt
HeldBelow-set zero (x ∷ ddr) d below h = (h, tt)
HeldBelow-set (suc i) [] d below h = tt
HeldBelow-set (suc i) (x ∷ ddr) d below h = (below.0, HeldBelow-set i ddr d below.1 h)

HeldBelow-AllHeld : (i : ℕ) (ddr : List DmaDesc) → HeldBelow i ddr → length ddr ≡ i → AllHeld ddr
HeldBelow-AllHeld i [] below e = tt
HeldBelow-AllHeld zero (d ∷ ddr) below e = absurd (omega (arith, e))
HeldBelow-AllHeld (suc i) (d ∷ ddr) below e =
    (below.0, HeldBelow-AllHeld i ddr below.1 (omega (arith, e)))

-- What filling the ring leaves.
pub record Filled (n : ℕ) (m : Mxlk) (o : Mxlk × Bool) : Type 0 where
  pub ok : o.1 ≡ true
  pub held : AllHeld o.0.rx_ddr
  pub size : length o.0.rx_ddr ≡ length m.rx_ddr
  pub pool : length o.0.rx_pool.chain + n ≡ length m.rx_pool.chain
  pub rx : o.0.rx ≡ m.rx
  pub tx_pool : o.0.tx_pool ≡ m.tx_pool
  pub tx : o.0.tx ≡ m.tx
  pub tx_ddr : o.0.tx_ddr ≡ m.tx_ddr

-- the state after slot `i` is given `b`
abbrev placed : Dma → ℕ → BufDesc → Mxlk → Mxlk
placed dma i b m =
    let dd = (map_dma dma b).0 in
    let td = td_at m.rx.tdr i in
    record m {
      rx_pool = (pool_alloc m.rx_pool).1;
      rx_ddr = set m.rx_ddr i dd;
      mmio = set_td_length (set_td_address m.mmio td dd.phys) td dd.length;
    }

fill_ring-none : (i : ℕ) (dma : Dma) (m : Mxlk) → fill_ring 0 i dma m ≡ (m, true)
unfolding fill_ring
fill_ring-none i dma m = refl

fill_ring-step :
    (n i : ℕ) (dma : Dma) (m : Mxlk) (b : BufDesc)
    → (pool_alloc m.rx_pool).0 ≡ some b
    → (map_dma dma b).1 ≡ false
    → fill_ring (suc n) i dma m ≡ fill_ring n (i + 1) dma (placed dma i b m)
unfolding fill_ring
fill_ring-step n i dma m b taken mapped = rw (taken, fill_ring) (rw (mapped, fill_ring) refl)

map_dma-held : (dma : Dma) (b : BufDesc) → is_some (map_dma dma b).0.bd ≡ true
unfolding map_dma
map_dma-held dma b = refl

map_dma-ok : (dma : Dma) (b : BufDesc) → (dma b).1 ≡ false → (map_dma dma b).1 ≡ false
unfolding map_dma
map_dma-ok dma b e = e

pub fill_ring-Filled :
    (n i : ℕ) (dma : Dma) (m : Mxlk)
    → ((b : BufDesc) → (dma b).1 ≡ false)
    → i + n ≡ length m.rx_ddr
    → n ≤ length m.rx_pool.chain
    → HeldBelow i m.rx_ddr
    → Filled n m (fill_ring n i dma m)
fill_ring-Filled zero i dma m maps size enough below =
    let same = sym (fill_ring-none i dma m) in
    subst (Filled 0 m) same (record {
      ok = refl;
      held = HeldBelow-AllHeld i m.rx_ddr below (omega (arith, size));
      size = refl;
      pool = omega arith;
      rx = refl;
      tx_pool = refl;
      tx = refl;
      tx_ddr = refl;
    })
fill_ring-Filled (suc n) i dma m maps size enough below =
    let counts = pool_alloc-held m.rx_pool in
    elim (Option-cases (pool_alloc m.rx_pool).0) [
      | inl none_left ↦
          absurd (omega (arith, enough, ap length (pool_alloc-none m.rx_pool none_left)))
      | inr (b, taken) ↦
          let counts' =
            ap (λ b. held b + length (pool_alloc m.rx_pool).1.chain) (sym taken) ∙ counts in
          let dd = (map_dma dma b).0 in
          let m' = placed dma i b m in
          let rest =
            fill_ring-Filled n (i + 1) dma m' maps (omega (arith, size, length-set m.rx_ddr i dd))
              (omega (arith, enough, counts'))
              (subst (λ j. HeldBelow j m'.rx_ddr) {x = suc i} (omega arith)
                (HeldBelow-set i m.rx_ddr dd below (map_dma-held dma b))) in
          subst (Filled (suc n) m)
            (sym (fill_ring-step n i dma m b taken (map_dma-ok dma b (maps b))))
            (record {
              ok = rest.ok;
              held = rest.held;
              size = rest.size ∙ length-set m.rx_ddr i dd;
              pool = omega (arith, rest.pool, counts');
              rx = rest.rx;
              tx_pool = rest.tx_pool;
              tx = rest.tx;
              tx_ddr = rest.tx_ddr;
            })
    ]

-- Placing a descriptor changes only its transfer descriptor in the device's memory.
rd32-placed :
    (dma : Dma) (i : ℕ) (b : BufDesc) (m : Mxlk) (a : ℕ)
    → Apart (td_at m.rx.tdr i) 16 a 4
    → rd32 (placed dma i b m).mmio a ≡ rd32 m.mmio a
unfolding set_td_length set_td_address
rd32-placed dma i b m a apart =
    let td = td_at m.rx.tdr i in
    let dd = (map_dma dma b).0 in
    rd32-wr32_ne (set_td_address m.mmio td dd.phys) (td + 8) dd.length a (omega (arith, apart))
    ∙ rd32-wr64_ne m.mmio td dd.phys a (omega (arith, apart))

map_dma-mapped : (dma : Dma) (b : BufDesc) → (map_dma dma b).0 ≡ mapped dma b
unfolding map_dma
map_dma-mapped dma b = refl

-- the slots before `i` are fresh
abbrev FreshBelow : Dma → ℕ → Mxlk → Type 0
FreshBelow dma i m = (j : ℕ) → j < i → Fresh dma m.rx m.mmio m.rx_ddr j

FreshBelow-placed :
    (dma : Dma) (i : ℕ) (b : BufDesc) (m : Mxlk)
    → i < length m.rx_ddr
    → FreshBelow dma i m
    → FreshBelow dma (i + 1) (placed dma i b m)
FreshBelow-placed dma i b m inside below j lt =
    let there : DmaDesc → Type 0 =
      λ d. Fresh dma m.rx (refilled m.mmio m.rx.tdr i d.phys d.length) (set m.rx_ddr i d) j in
    subst there (sym (map_dma-mapped dma b)) (elim (ℕ_discrete j i) [
      | yes here ↦
          subst
            (λ k.
              Fresh dma m.rx (refilled m.mmio m.rx.tdr i (dma b).0 b.length)
                (set m.rx_ddr i (mapped dma b)) k)
            (sym here) (Fresh-refilled dma m.rx m.mmio m.rx_ddr i b inside)
      | no other ↦
          Fresh-SameOn dma m.rx m.mmio (refilled m.mmio m.rx.tdr i (dma b).0 b.length) m.rx_ddr
            (set m.rx_ddr i (mapped dma b)) j
            (refilled-SameOn m.mmio m.rx.tdr i (dma b).0 b.length j other)
            (get_or-set_ne m.rx_ddr i j (mapped dma b) empty_slot (λ e. other (sym e)))
            (below j (omega (arith, lt, other)))
    ])

pub fill_ring-Fresh :
    (n i : ℕ) (dma : Dma) (m : Mxlk)
    → ((b : BufDesc) → (dma b).1 ≡ false)
    → i + n ≡ length m.rx_ddr
    → n ≤ length m.rx_pool.chain
    → FreshBelow dma i m
    → FreshBelow dma (i + n) (fill_ring n i dma m).0
fill_ring-Fresh zero i dma m maps size enough below =
    subst (λ o. FreshBelow dma (i + 0) o.0) (sym (fill_ring-none i dma m))
      (λ j lt. below j (omega (arith, lt)))
fill_ring-Fresh (suc n) i dma m maps size enough below =
    elim (Option-cases (pool_alloc m.rx_pool).0) [
      | inl none_left ↦
          absurd (omega (arith, enough, ap length (pool_alloc-none m.rx_pool none_left)))
      | inr (b, taken) ↦
          let counts =
            ap (λ b. held b + length (pool_alloc m.rx_pool).1.chain) (sym taken)
            ∙ pool_alloc-held m.rx_pool in
          let m' = placed dma i b m in
          let rest =
            fill_ring-Fresh n (i + 1) dma m' maps
              (omega (arith, size, length-set m.rx_ddr i (map_dma dma b).0))
              (omega (arith, enough, counts))
              (FreshBelow-placed dma i b m (omega (arith, size)) below) in
          subst (λ o. FreshBelow dma (i + suc n) o.0)
            (sym (fill_ring-step n i dma m b taken (map_dma-ok dma b (maps b))))
            (λ j lt. rest j (omega (arith, lt)))
    ]

fill_ring-starved :
    (n i : ℕ) (dma : Dma) (m : Mxlk)
    → (pool_alloc m.rx_pool).0 ≡ none
    → fill_ring (suc n) i dma m ≡ (m, false)
unfolding fill_ring
fill_ring-starved n i dma m e = rw (e, fill_ring) refl

pub rd32-fill_ring :
    (n i : ℕ) (dma : Dma) (m : Mxlk) (a : ℕ)
    → ((b : BufDesc) → (dma b).1 ≡ false)
    → Apart m.rx.tdr ((i + n) * 16) a 4
    → rd32 (fill_ring n i dma m).0.mmio a ≡ rd32 m.mmio a
rd32-fill_ring zero i dma m a maps apart = ap (λ o. rd32 o.0.mmio a) (fill_ring-none i dma m)
rd32-fill_ring (suc n) i dma m a maps apart = elim (Option-cases (pool_alloc m.rx_pool).0) [
  | inl none_left ↦ ap (λ o. rd32 o.0.mmio a) (fill_ring-starved n i dma m none_left)
  | inr (b, taken) ↦
      ap (λ o. rd32 o.0.mmio a) (fill_ring-step n i dma m b taken (map_dma-ok dma b (maps b)))
      ∙ rd32-fill_ring n (i + 1) dma (placed dma i b m) a maps (omega (arith, apart))
      ∙ rd32-placed dma i b m a (omega (arith, apart))
]
