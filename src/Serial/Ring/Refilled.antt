-- ===== src/Serial/Ring/Refilled.antt =====
-- serial/mxlk/mxlk_core.c: the slots that the receive handler has given new descriptors, and all that it
-- leaves as it was.
use pcie_host_driver.Prelude.{
  ℕ, zero, suc, ◌+◌, ◌-◌, ◌*◌, ◌%◌, ◌^◌, ◌≤◌, ◌<◌, ◌≡◌, ◌≢◌, refl, sym, ◌∙◌, inl, inr, some, List,
  arith, length, get_or, set, get_or-set_self, get_or-set_ne,
}
use pcie_host_driver.Mmio.{Mem, rd32, wr64}
use pcie_host_driver.Mmio.Laws.{
  Apart, SameOn, rd32-SameOn, rd64-SameOn, rd64-wr64_wrap, rd32-wr32, rd32-wr32_ne, rd32-wr64_ne,
  wr32-SameOn,
}
use pcie_host_driver.Serial.Buffers.{BufDesc}
use pcie_host_driver.Serial.Ring.{
  Pipe, DmaDesc, empty_slot, td_at, set_td_address, set_td_length, get_td_address, get_td_length,
  circular_inc, Dma,
}
use pcie_host_driver.Serial.Ring.Places.{Steps, Steps-inc, Steps-around, circular_inc-cases}
use pcie_host_driver.Serial.Ring.Arrivals.{refilled, refilled-SameOn, narrow}

-- the slot of a descriptor that is mapped for the device
abbrev pub mapped : Dma → BufDesc → DmaDesc
mapped dma b = record { bd = some b; phys = (dma b).0; length = b.length }

-- The slot `i` has a descriptor, and its transfer descriptor the bus address and the length of that.
abbrev pub Fresh : Dma → Pipe → Mem → List DmaDesc → ℕ → Type 0
Fresh dma rx mmio ddr i =
    (b : BufDesc) × (get_or ddr i empty_slot ≡ mapped dma b)
    × (get_td_address mmio (td_at rx.tdr i) ≡ (dma b).0 % 2 ^ 64)
    × (get_td_length mmio (td_at rx.tdr i) ≡ b.length % 2 ^ 32)

-- So have `k` slots from the place `i` on.
abbrev pub AllFresh : Dma → Pipe → Mem → List DmaDesc → ℕ → ℕ → Type 0
AllFresh dma rx mmio ddr i zero = Unit
AllFresh dma rx mmio ddr i (suc k) =
    Fresh dma rx mmio ddr i × AllFresh dma rx mmio ddr (circular_inc i rx.ndesc) k

-- The places that `turns` steps from `start` do not pass keep slot and transfer descriptor.
abbrev pub Kept : Pipe → Mem → List DmaDesc → Mem → List DmaDesc → ℕ → ℕ → Type 0
Kept rx mmio ddr mmio' ddr' start turns =
    (p r : ℕ)
    → p < rx.ndesc
    → Steps rx.ndesc start p r
    → turns ≤ r
    → SameOn (td_at rx.tdr p) 16 mmio mmio' × (get_or ddr' p empty_slot ≡ get_or ddr p empty_slot)

-- The registers outside the transfer descriptors keep their values.
abbrev pub Outside : Pipe → Mem → Mem → Type 0
Outside rx mmio mmio' = (a : ℕ) → Apart rx.tdr (rx.ndesc * 16) a 4 → rd32 mmio' a ≡ rd32 mmio a

pub Fresh-refilled :
    (dma : Dma) (rx : Pipe) (mmio : Mem) (ddr : List DmaDesc) (i : ℕ) (b : BufDesc)
    → i < length ddr
    → Fresh dma rx (refilled mmio rx.tdr i (dma b).0 b.length) (set ddr i (mapped dma b)) i
unfolding set_td_address set_td_length get_td_address get_td_length
Fresh-refilled dma rx mmio ddr i b inside =
    let td = td_at rx.tdr i in
    let m1 : Mem = wr64 mmio td (dma b).0 in
    (
      b,
      get_or-set_self ddr i (mapped dma b) empty_slot inside,
      rd64-SameOn m1 (refilled mmio rx.tdr i (dma b).0 b.length) td
            (wr32-SameOn m1 (td + 8) b.length td 8 (inr (omega arith)))
          ∙ rd64-wr64_wrap mmio td (dma b).0,
      rd32-wr32 m1 (td + 8) b.length,
    )

pub Fresh-SameOn :
    (dma : Dma) (rx : Pipe) (mmio mmio' : Mem) (ddr ddr' : List DmaDesc) (i : ℕ)
    → SameOn (td_at rx.tdr i) 16 mmio mmio'
    → get_or ddr' i empty_slot ≡ get_or ddr i empty_slot
    → Fresh dma rx mmio ddr i
    → Fresh dma rx mmio' ddr' i
unfolding get_td_address get_td_length
Fresh-SameOn dma rx mmio mmio' ddr ddr' i same slot (b, held, address, len) =
    let td = td_at rx.tdr i in
    (
      b,
      slot ∙ held,
      rd64-SameOn mmio mmio' td (narrow td 16 td 8 mmio mmio' same (omega arith) (omega arith))
          ∙ address,
      rd32-SameOn mmio mmio' (td + 8)
            (narrow td 16 (td + 8) 4 mmio mmio' same (omega arith) (omega arith))
          ∙ len,
    )

place-next : (n i : ℕ) → i < n → n < 2 ^ 32 → circular_inc i n < n
place-next n i h small = elim (circular_inc-cases i n h small) [
  | inl (more, e) ↦ omega (arith, more, e)
  | inr (last, e) ↦ omega (arith, last, e)
]

-- A write outside the transfer descriptors.
pub AllFresh-SameOn :
    (dma : Dma) (rx : Pipe) (mmio mmio' : Mem) (ddr : List DmaDesc) (i k : ℕ)
    → rx.ndesc < 2 ^ 32
    → i < rx.ndesc
    → SameOn rx.tdr (rx.ndesc * 16) mmio mmio'
    → AllFresh dma rx mmio ddr i k
    → AllFresh dma rx mmio' ddr i k
AllFresh-SameOn dma rx mmio mmio' ddr i zero small h same all = tt
AllFresh-SameOn dma rx mmio mmio' ddr i (suc k) small h same (first, all) = (
  Fresh-SameOn dma rx mmio mmio' ddr ddr i
      (narrow rx.tdr (rx.ndesc * 16) (td_at rx.tdr i) 16 mmio mmio' same (omega arith)
        (omega (arith, h)))
      refl first,
  AllFresh-SameOn dma rx mmio mmio' ddr (circular_inc i rx.ndesc) k small
      (place-next rx.ndesc i h small) same all,
)

-- A turn at `head` before `turns` more.
pub Kept-turn :
    (rx : Pipe) (mmio mmio' : Mem) (ddr ddr' : List DmaDesc) (head turns : ℕ) (slot : DmaDesc)
    → rx.ndesc < 2 ^ 32
    → head < rx.ndesc
    → Kept rx
        (refilled mmio rx.tdr head slot.phys slot.length)
        (set ddr head slot)
        mmio'
        ddr'
        (circular_inc head rx.ndesc)
        turns
    → Kept rx mmio ddr mmio' ddr' head (suc turns)
Kept-turn rx mmio mmio' ddr ddr' head turns slot small at kept p zero h steps le =
    absurd (omega (arith, le))
Kept-turn rx mmio mmio' ddr ddr' head turns slot small at kept p (suc r) h steps le =
    let ne : head ≢ p = λ e. elim steps.1 [
      | inl x ↦ absurd (omega (arith, x, e))
      | inr x ↦ absurd (omega (arith, x, e, steps.0))
    ] in
    let (steps', at') = Steps-inc rx.ndesc head p r small at h steps in
    let (same, held) = kept p r h steps' (omega (arith, le)) in
    (
      λ x lo hi.
          same x lo hi
          ∙ refilled-SameOn mmio rx.tdr head slot.phys slot.length p (λ e. ne (sym e)) x lo hi,
      held ∙ get_or-set_ne ddr head p slot empty_slot ne,
    )

pub Outside-turn :
    (rx : Pipe) (mmio mmio' : Mem) (head phys len : ℕ)
    → head < rx.ndesc
    → Outside rx (refilled mmio rx.tdr head phys len) mmio'
    → Outside rx mmio mmio'
unfolding set_td_address set_td_length
Outside-turn rx mmio mmio' head phys len at outside a apart =
    let td = td_at rx.tdr head in
    outside a apart
    ∙ rd32-wr32_ne (set_td_address mmio td phys) (td + 8) len a (omega (arith, apart))
    ∙ rd32-wr64_ne mmio td phys a (omega (arith, apart))

-- The slot of a turn is still fresh after less than a round of others.
pub Fresh-Kept :
    (dma : Dma) (rx : Pipe) (mmio mmio' : Mem) (ddr ddr' : List DmaDesc) (head turns : ℕ)
    → rx.ndesc < 2 ^ 32
    → head < rx.ndesc
    → turns < rx.ndesc
    → Kept rx mmio ddr mmio' ddr' (circular_inc head rx.ndesc) turns
    → Fresh dma rx mmio ddr head
    → Fresh dma rx mmio' ddr' head
Fresh-Kept dma rx mmio mmio' ddr ddr' head turns small at few kept fresh =
    let (same, slot) =
      kept head (rx.ndesc - 1) at (Steps-around rx.ndesc head at small) (omega (arith, few)) in
    Fresh-SameOn dma rx mmio mmio' ddr ddr' head same slot fresh
