-- ===== src/Serial/Transmit/Described.antt =====
-- serial/mxlk/mxlk_core.c: what the transfer descriptors of the transmit ring tell the device.
use pcie_host_driver.Prelude.{
  ℕ, zero, suc, ◌+◌, ◌*◌, ◌%◌, ◌^◌, ◌≤◌, ◌<◌, ◌≡◌, ◌≢◌, sym, ap, subst, ◌∙◌, inl, inr, List, [],
  ◌∷◌, ◌++◌, arith, length, dec_lt,
}
use pcie_host_driver.Mmio.{Mem, rd16, wr16, wr32, wr64, le_value, le_bytes}
use pcie_host_driver.Mmio.Laws.{
  Apart, SameOn, rd_buf-SameOn, rd_buf-wr_buf, wr_buf-SameOn, rd32-SameOn, rd32-wr32, wr32-SameOn,
  wr64-SameOn, rd64-SameOn, rd64-wr64_wrap,
}
use pcie_host_driver.Serial.Buffers.{BufDesc}
use pcie_host_driver.Serial.Ring.{
  td_at, set_td_address, set_td_length, set_td_status, set_td_interface, get_td_address,
  get_td_length, get_td_interface, desc_status_error, circular_inc, Dma,
}
use pcie_host_driver.Serial.Ring.Places.{Steps, Steps-inc, circular_inc-cases}
use pcie_host_driver.Serial.Ring.Arrivals.{narrow}

-- The transfer descriptor at `td` has the bus address of the data of `b`, its length and its interface.
abbrev pub Tells : Dma → Mem → ℕ → BufDesc → Type 0
Tells dma mmio td b =
    (get_td_address mmio td ≡ (dma b).0 % 2 ^ 64)
    × (get_td_length mmio td ≡ b.length % 2 ^ 32)
    × (get_td_interface mmio td ≡ b.interface % 2 ^ 16)

-- The transfer descriptors from the place `i` on are those of these buffers.
abbrev pub Described : Dma → ℕ → Mem → ℕ → ℕ → List BufDesc → Type 0
Described dma n mmio tdr i [] = Unit
Described dma n mmio tdr i (b ∷ bds) =
    Tells dma mmio (td_at tdr i) b × Described dma n mmio tdr (circular_inc i n) bds

rd16-SameOn : (m k : Mem) (a : ℕ) → SameOn a 2 m k → rd16 k a ≡ rd16 m a
unfolding rd16
rd16-SameOn m k a h = ap le_value (rd_buf-SameOn m k a 2 h)

wr16-SameOn : (m : Mem) (a v b n : ℕ) → Apart a 2 b n → SameOn b n m (wr16 m a v)
unfolding wr16
wr16-SameOn m a v b n h = wr_buf-SameOn m a (le_bytes 2 v) b n h

rd16-wr16 : (m : Mem) (a v : ℕ) → rd16 (wr16 m a v) a ≡ v % 2 ^ 16
unfolding rd16 wr16
rd16-wr16 m a v = ap le_value (rd_buf-wr_buf m a (le_bytes 2 v)) ∙ omega arith

-- the memory once the transfer descriptor at `td` is made ready
abbrev pub told : Mem → ℕ → ℕ → ℕ → ℕ → Mem
told mmio td phys len interface =
    set_td_status
      (set_td_interface (set_td_length (set_td_address mmio td phys) td len) td interface) td
      desc_status_error

told-SameOn :
    (mmio : Mem) (td phys len interface a n : ℕ)
    → Apart td 16 a n
    → SameOn a n mmio (told mmio td phys len interface)
unfolding set_td_status set_td_interface set_td_length set_td_address
told-SameOn mmio td phys len interface a n apart x lo hi =
    let m1 = wr64 mmio td phys in
    let m2 = wr32 m1 (td + 8) len in
    let m3 = wr16 m2 (td + 14) interface in
    wr16-SameOn m3 (td + 12) desc_status_error x 1 (omega arith) x (omega arith) (omega arith)
    ∙ wr16-SameOn m2 (td + 14) interface x 1 (omega arith) x (omega arith) (omega arith)
    ∙ wr32-SameOn m1 (td + 8) len x 1 (omega arith) x (omega arith) (omega arith)
    ∙ wr64-SameOn mmio td phys x 1 (omega arith) x (omega arith) (omega arith)

-- The transfer descriptor that is made ready tells what it is given.
told-Tells :
    (dma : Dma) (mmio : Mem) (td : ℕ) (b : BufDesc)
    → Tells dma (told mmio td (dma b).0 b.length b.interface) td b
unfolding set_td_status set_td_interface set_td_length set_td_address get_td_address get_td_length
    get_td_interface
told-Tells dma mmio td b =
    let m1 = wr64 mmio td (dma b).0 in
    let m2 = wr32 m1 (td + 8) b.length in
    let m3 = wr16 m2 (td + 14) b.interface in
    let m4 = wr16 m3 (td + 12) desc_status_error in
    (
      rd64-SameOn m3 m4 td (wr16-SameOn m3 (td + 12) desc_status_error td 8 (inr (omega arith)))
          ∙ rd64-SameOn m2 m3 td (wr16-SameOn m2 (td + 14) b.interface td 8 (inr (omega arith)))
          ∙ rd64-SameOn m1 m2 td (wr32-SameOn m1 (td + 8) b.length td 8 (inr (omega arith)))
          ∙ rd64-wr64_wrap mmio td (dma b).0,
      rd32-SameOn m3 m4 (td + 8)
            (wr16-SameOn m3 (td + 12) desc_status_error (td + 8) 4 (inr (omega arith)))
          ∙ rd32-SameOn m2 m3 (td + 8)
              (wr16-SameOn m2 (td + 14) b.interface (td + 8) 4 (inr (omega arith)))
          ∙ rd32-wr32 m1 (td + 8) b.length,
      rd16-SameOn m3 m4 (td + 14)
            (wr16-SameOn m3 (td + 12) desc_status_error (td + 14) 2 (inl (omega arith)))
          ∙ rd16-wr16 m2 (td + 14) b.interface,
    )

Tells-SameOn :
    (dma : Dma) (m k : Mem) (td : ℕ) (b : BufDesc)
    → SameOn td 16 m k
    → Tells dma m td b
    → Tells dma k td b
unfolding get_td_address get_td_length get_td_interface
Tells-SameOn dma m k td b h (address, len, interface) = (
  rd64-SameOn m k td (narrow td 16 td 8 m k h (omega arith) (omega arith)) ∙ address,
  rd32-SameOn m k (td + 8) (narrow td 16 (td + 8) 4 m k h (omega arith) (omega arith)) ∙ len,
  rd16-SameOn m k (td + 14) (narrow td 16 (td + 14) 2 m k h (omega arith) (omega arith))
      ∙ interface,
)

-- A write outside a ring of `n` places.
pub Described-outside :
    (dma : Dma) (n : ℕ) (m k : Mem) (tdr i : ℕ) (bds : List BufDesc)
    → n < 2 ^ 32
    → i < n
    → SameOn tdr (n * 16) m k
    → Described dma n m tdr i bds
    → Described dma n k tdr i bds
Described-outside dma n m k tdr i [] small at h d = tt
Described-outside dma n m k tdr i (b ∷ bds) small at h (tells, d) =
    let at' : circular_inc i n < n = elim (circular_inc-cases i n at small) [
      | inl (more, e) ↦ omega (arith, more, e)
      | inr (last, e) ↦ omega (arith, last, e)
    ] in
    (
      Tells-SameOn dma m k (td_at tdr i) b
          (narrow tdr (n * 16) (td_at tdr i) 16 m k h (omega arith) (omega (arith, at))) tells,
      Described-outside dma n m k tdr (circular_inc i n) bds small at' h d,
    )

-- Making ready a slot that is not reached within `j` steps.
pub Described-frame :
    (dma : Dma) (n : ℕ) (mmio : Mem) (tdr phys len interface i p : ℕ) (bds : List BufDesc) (j : ℕ)
    → n < 2 ^ 32
    → p < n
    → i < n
    → Steps n p i j
    → length bds ≤ j
    → Described dma n mmio tdr p bds
    → Described dma n (told mmio (td_at tdr i) phys len interface) tdr p bds
Described-frame dma n mmio tdr phys len interface i p [] j small hp hi steps le d = tt
Described-frame dma n mmio tdr phys len interface i p (b ∷ bds) zero small hp hi steps le d =
    absurd (omega (arith, le))
Described-frame dma n mmio tdr phys len interface i p (b ∷ bds) (suc j) small hp hi steps le
      (tells, d) =
    let ne : i ≢ p = λ e. elim steps.1 [
      | inl x ↦ absurd (omega (arith, x, e))
      | inr x ↦ absurd (omega (arith, x, e, steps.0))
    ] in
    let (steps', hp') = Steps-inc n p i j small hp hi steps in
    let apart : Apart (td_at tdr i) 16 (td_at tdr p) 16 = elim (dec_lt p i) [
      | yes lt ↦ inr (omega (arith, lt))
      | no ge ↦ inl (omega (arith, ge, ne))
    ] in
    (
      Tells-SameOn dma mmio (told mmio (td_at tdr i) phys len interface) (td_at tdr p) b
          (told-SameOn mmio (td_at tdr i) phys len interface (td_at tdr p) 16 apart) tells,
      Described-frame dma n mmio tdr phys len interface i (circular_inc p n) bds j small hp' hi
          steps' (omega (arith, le)) d,
    )

-- One more transfer descriptor behind those that are described.
pub Described-snoc :
    (dma : Dma) (n : ℕ) (mmio : Mem) (tdr tail i : ℕ) (bds : List BufDesc) (b : BufDesc)
    → n < 2 ^ 32
    → i < n
    → tail < n
    → Steps n i tail (length bds)
    → Tells dma mmio (td_at tdr tail) b
    → Described dma n mmio tdr i bds
    → Described dma n mmio tdr i (bds ++ (b ∷ []))
Described-snoc dma n mmio tdr tail i [] b small hi ht steps tells d =
    let e : i ≡ tail = elim steps.1 [
      | inl x ↦ omega (arith, x)
      | inr x ↦ absurd (omega (arith, x, hi))
    ] in
    (subst (λ k. Tells dma mmio (td_at tdr k) b) (sym e) tells, tt)
Described-snoc dma n mmio tdr tail i (x ∷ bds) b small hi ht steps tells (first, d) =
    let (steps', hi') = Steps-inc n i tail (length bds) small hi ht steps in
    (first, Described-snoc dma n mmio tdr tail (circular_inc i n) bds b small hi' ht steps' tells d)

-- A slot is made ready behind the slots that are described.
pub Described-told :
    (dma : Dma) (n : ℕ) (mmio : Mem) (tdr tail i : ℕ) (bds : List BufDesc) (b : BufDesc)
    → n < 2 ^ 32
    → i < n
    → tail < n
    → Steps n i tail (length bds)
    → Described dma n mmio tdr i bds
    → Described dma n
        (told mmio (td_at tdr tail) (dma b).0 b.length b.interface)
        tdr
        i
        (bds ++ (b ∷ []))
Described-told dma n mmio tdr tail i bds b small hi ht steps d =
    Described-snoc dma n (told mmio (td_at tdr tail) (dma b).0 b.length b.interface) tdr tail i bds
      b small hi ht steps (told-Tells dma mmio (td_at tdr tail) b)
      (Described-frame dma n mmio tdr (dma b).0 b.length b.interface tail i bds (length bds) small
        hi ht steps (omega arith) d)
