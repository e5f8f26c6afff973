-- ===== src/Serial/Ring/Arrivals.antt =====
-- serial/mxlk/mxlk_core.c: what the receive handler is to hand to the interface, told from the ring as
-- it is before the run, and why refilling a slot does not change it for the others.
use pcie_host_driver.Prelude.{
  ℕ, zero, suc, ◌+◌, ◌-◌, ◌^◌, ◌≤◌, ◌<◌, ◌≡◌, ◌≢◌, refl, sym, ap, ◌∙◌, inl, inr, none, some, List,
  [], ◌∷◌, ◌++◌, arith, ltb, ◌==◌, if◌then◌else◌, get_or, set, get_or-set_ne, dec_lt,
}
use pcie_host_driver.Mmio.{Mem, rd16, wr64, le_value}
use pcie_host_driver.Mmio.Laws.{Apart, SameOn, rd_buf-SameOn, rd32-SameOn, wr32-SameOn, wr64-SameOn}
use pcie_host_driver.Serial.Buffers.{BufDesc}
use pcie_host_driver.Serial.Ring.{
  DmaDesc, empty_slot, td_at, set_td_address, set_td_length, get_td_status, get_td_interface,
  get_td_length, desc_status_success, num_interfaces, circular_inc,
}
use pcie_host_driver.Serial.Ring.Places.{Steps, Steps-inc, Steps-around, circular_inc-cases}

-- The descriptor `b` of a finished transfer: for an interface that there is, with the device's length.
abbrev pub handed : ℕ → ℕ → ℕ → BufDesc → List BufDesc
handed status interface len b =
    if status == desc_status_success
    then if ltb interface num_interfaces
      then record b { interface = interface; length = len } ∷ []
      else []
    else []

-- what a slot with the descriptor `d` has for the interface
abbrev pub from_slot : ℕ → ℕ → ℕ → DmaDesc → List BufDesc
from_slot status interface len d = elim d.bd [ none ↦ [] | some b ↦ handed status interface len b ]

-- what the slot `i` has for the interface
abbrev pub arrival : Mem → ℕ → List DmaDesc → ℕ → List BufDesc
arrival mmio tdr ddr i =
    let td = td_at tdr i in
    from_slot (get_td_status mmio td) (get_td_interface mmio td) (get_td_length mmio td)
      (get_or ddr i empty_slot)

-- what `k` slots from the place `i` on have, in their order on the ring
abbrev pub arrivals : ℕ → ℕ → Mem → ℕ → List DmaDesc → ℕ → List BufDesc
arrivals zero n mmio tdr ddr i = []
arrivals (suc k) n mmio tdr ddr i =
    arrival mmio tdr ddr i ++ arrivals k n mmio tdr ddr (circular_inc i n)

-- Places that are not one step behind a place are reached from there without passing it.
arrivals-passing :
    (k r i n avoid : ℕ) (mmio mmio' : Mem) (tdr : ℕ) (ddr ddr' : List DmaDesc)
    → n < 2 ^ 32
    → i < n
    → avoid < n
    → Steps n i avoid r
    → k ≤ r
    → ((p : ℕ) → p ≢ avoid → arrival mmio' tdr ddr' p ≡ arrival mmio tdr ddr p)
    → arrivals k n mmio' tdr ddr' i ≡ arrivals k n mmio tdr ddr i
arrivals-passing zero r i n avoid mmio mmio' tdr ddr ddr' small at out steps le same = refl
arrivals-passing (suc k) zero i n avoid mmio mmio' tdr ddr ddr' small at out steps le same =
    absurd (omega (arith, le))
arrivals-passing (suc k) (suc r) i n avoid mmio mmio' tdr ddr ddr' small at out steps le same =
    let ne : i ≢ avoid = λ e. elim steps.1 [
      | inl x ↦ absurd (omega (arith, x, e))
      | inr x ↦ absurd (omega (arith, x, e, steps.0))
    ] in
    let (steps', at') = Steps-inc n i avoid r small at out steps in
    let rest =
      arrivals-passing k r (circular_inc i n) n avoid mmio mmio' tdr ddr ddr' small at' out steps'
        (omega (arith, le)) same in
    ap (λ l. l ++ arrivals k n mmio' tdr ddr' (circular_inc i n)) (same i ne)
    ∙ ap (λ l. arrival mmio tdr ddr i ++ l) rest

-- the place behind `i`, one step further back
pub Steps-back :
    (n i tail k : ℕ)
    → n < 2 ^ 32
    → i < n
    → tail < n
    → suc k < n
    → Steps n (circular_inc i n) tail k
    → Steps n i tail (suc k)
Steps-back n i tail k small at t le (lt, s) = elim (circular_inc-cases i n at small) [
  | inl (more, e) ↦
      (le, elim s [ inl x ↦ inl (omega (arith, x, e)) | inr x ↦ inr (omega (arith, x, e)) ])
  | inr (last, e) ↦ (
    le,
    elim s [ inl x ↦ inr (omega (arith, x, e, last)) | inr x ↦ absurd (omega (arith, x, e, lt)) ],
  )
]

-- a slot's transfer descriptor after that of another slot is written
abbrev pub refilled : Mem → ℕ → ℕ → ℕ → ℕ → Mem
refilled mmio tdr head phys len =
    let td = td_at tdr head in set_td_length (set_td_address mmio td phys) td len

pub refilled-SameOn :
    (mmio : Mem) (tdr head phys len p : ℕ)
    → p ≢ head
    → SameOn (td_at tdr p) 16 mmio (refilled mmio tdr head phys len)
unfolding set_td_length set_td_address
refilled-SameOn mmio tdr head phys len p ne x lo hi =
    let td = td_at tdr head in
    let apart : (n : ℕ) → n ≤ 12 → Apart td n (td_at tdr p) 16 = λ n le. elim (dec_lt p head) [
      | yes lt ↦ inr (omega (arith, lt))
      | no ge ↦ inl (omega (arith, ge, ne, le))
    ] in
    let apart' : Apart (td + 8) 4 (td_at tdr p) 16 = elim (apart 12 (omega arith)) [
      | inl a ↦ inl (omega (arith, a))
      | inr a ↦ inr (omega (arith, a))
    ] in
    wr32-SameOn (wr64 mmio td phys) (td + 8) len (td_at tdr p) 16 apart' x lo hi
    ∙ wr64-SameOn mmio td phys (td_at tdr p) 16 (apart 8 (omega arith)) x lo hi

pub narrow : (a n b k : ℕ) (m m' : Mem) → SameOn a n m m' → a ≤ b → b + k ≤ a + n → SameOn b k m m'
narrow a n b k m m' same lo hi x p q = same x (omega arith) (omega arith)

arrival-refilled :
    (mmio : Mem) (tdr head phys len : ℕ) (d : DmaDesc) (ddr : List DmaDesc) (p : ℕ)
    → p ≢ head
    → arrival (refilled mmio tdr head phys len) tdr (set ddr head d) p ≡ arrival mmio tdr ddr p
unfolding get_td_status get_td_interface get_td_length rd16
arrival-refilled mmio tdr head phys len d ddr p ne =
    let k = refilled mmio tdr head phys len in
    let td = td_at tdr p in
    let same = refilled-SameOn mmio tdr head phys len p ne in
    let status : get_td_status k td ≡ get_td_status mmio td = ap le_value (
      rd_buf-SameOn mmio k (td + 12) 2
        (narrow td 16 (td + 12) 2 mmio k same (omega arith) (omega arith))) in
    let interface : get_td_interface k td ≡ get_td_interface mmio td = ap le_value (
      rd_buf-SameOn mmio k (td + 14) 2
        (narrow td 16 (td + 14) 2 mmio k same (omega arith) (omega arith))) in
    let len' : get_td_length k td ≡ get_td_length mmio td =
      rd32-SameOn mmio k (td + 8)
        (narrow td 16 (td + 8) 4 mmio k same (omega arith) (omega arith)) in
    let slot : get_or (set ddr head d) p empty_slot ≡ get_or ddr p empty_slot =
      get_or-set_ne ddr head p d empty_slot (λ e. ne (sym e)) in
    let d' = get_or (set ddr head d) p empty_slot in
    ap (λ v. from_slot v (get_td_interface k td) (get_td_length k td) d') status
    ∙ ap (λ v. from_slot (get_td_status mmio td) v (get_td_length k td) d') interface
    ∙ ap (λ v. from_slot (get_td_status mmio td) (get_td_interface mmio td) v d') len'
    ∙ ap (from_slot (get_td_status mmio td) (get_td_interface mmio td) (get_td_length mmio td)) slot

-- Refilling a slot leaves what the others behind it have, for a round less one.
pub arrivals-refilled :
    (k n : ℕ) (mmio : Mem) (tdr head phys len : ℕ) (d : DmaDesc) (ddr : List DmaDesc)
    → n < 2 ^ 32
    → head < n
    → k < n
    → arrivals k n (refilled mmio tdr head phys len) tdr (set ddr head d) (circular_inc head n)
      ≡ arrivals k n mmio tdr ddr (circular_inc head n)
arrivals-refilled k n mmio tdr head phys len d ddr small at le =
    let place : circular_inc head n < n = elim (circular_inc-cases head n at small) [
      | inl (more, e) ↦ omega (arith, more, e)
      | inr (last, e) ↦ omega (arith, last, e)
    ] in
    arrivals-passing k (n - 1) (circular_inc head n) n head mmio (refilled mmio tdr head phys len)
      tdr ddr (set ddr head d) small place at (Steps-around n head at small) (omega (arith, le))
      (λ p ne. arrival-refilled mmio tdr head phys len d ddr p ne)
