-- ===== src/Mmio/Laws.antt =====
-- What a write leaves for a later read: the bytes written, and all bytes elsewhere.
use pcie_host_driver.Prelude.{
  ℕ, zero, suc, ◌+◌, ◌/◌, ◌%◌, ◌^◌, ◌≤◌, ◌<◌, ◌≡◌, refl, ◌∙◌, ap, ◌⊎◌, inl, inr, [], ◌∷◌, arith,
  length,
}
use pcie_host_driver.Mmio.{
  Mem, Bytes, offset, update, rd_buf, wr_buf, le_value, le_bytes, rd32, wr32, rd64, wr16, wr64,
}

-- Two ranges of addresses with no address in common.
abbrev pub Apart : ℕ → ℕ → ℕ → ℕ → Type 0
Apart a n b k = (a + n ≤ b) ⊎ (b + k ≤ a)

-- Two memories agree on `n` bytes from `a`.
abbrev pub SameOn : ℕ → ℕ → Mem → Mem → Type 0
SameOn a n m k = (x : ℕ) → a ≤ x → x < a + n → k x ≡ m x

-- A write changes no byte outside its range.
pub wr_buf-outside :
    (m : Mem) (a : ℕ) (bs : Bytes) (x : ℕ) → (x < a) ⊎ (a + length bs ≤ x) → wr_buf m a bs x ≡ m x
unfolding wr_buf update
wr_buf-outside m a [] x h = refl
wr_buf-outside m a (b ∷ bs) x h =
    wr_buf-outside (update m a b) (a + 1) bs x (omega arith) ∙ ground arith

pub rd_buf-SameOn : (m k : Mem) (a n : ℕ) → SameOn a n m k → rd_buf k a n ≡ rd_buf m a n
unfolding rd_buf
rd_buf-SameOn m k a zero h = refl
rd_buf-SameOn m k a (suc n) h = ground (
  arith,
  h a (omega arith) (omega arith),
  rd_buf-SameOn m k (a + 1) n (λ x p q. h x (omega arith) (omega arith)),
)

pub length-rd_buf : (m : Mem) (a n : ℕ) → length (rd_buf m a n) ≡ n
unfolding rd_buf
length-rd_buf m a zero = refl
length-rd_buf m a (suc n) = ap suc (length-rd_buf m (a + 1) n)

-- A read returns the bytes just written.
pub rd_buf-wr_buf : (m : Mem) (a : ℕ) (bs : Bytes) → rd_buf (wr_buf m a bs) a (length bs) ≡ bs
unfolding rd_buf wr_buf update
rd_buf-wr_buf m a [] = refl
rd_buf-wr_buf m a (b ∷ bs) = ground (
  arith,
  wr_buf-outside (update m a b) (a + 1) bs a (omega arith),
  rd_buf-wr_buf (update m a b) (a + 1) bs,
)

pub wr_buf-SameOn :
    (m : Mem) (a : ℕ) (bs : Bytes) (b n : ℕ)
    → Apart a (length bs) b n
    → SameOn b n m (wr_buf m a bs)
wr_buf-SameOn m a bs b n (inl h) x p q = wr_buf-outside m a bs x (omega arith)
wr_buf-SameOn m a bs b n (inr h) x p q = wr_buf-outside m a bs x (omega arith)

pub wr32-SameOn : (m : Mem) (a v b n : ℕ) → Apart a 4 b n → SameOn b n m (wr32 m a v)
unfolding wr32
wr32-SameOn m a v b n h = wr_buf-SameOn m a (le_bytes 4 v) b n h

pub rd32-SameOn : (m k : Mem) (a : ℕ) → SameOn a 4 m k → rd32 k a ≡ rd32 m a
unfolding rd32
rd32-SameOn m k a h = ap le_value (rd_buf-SameOn m k a 4 h)

-- A 32-bit register holds what was written to it, modulo 2 ^ 32.
pub rd32-wr32 : (m : Mem) (a v : ℕ) → rd32 (wr32 m a v) a ≡ v % 2 ^ 32
unfolding rd32 wr32
rd32-wr32 m a v = ap le_value (rd_buf-wr_buf m a (le_bytes 4 v)) ∙ omega arith

-- A 64-bit register is written as two halves, and read back whole.
pub rd64-wr64 : (m : Mem) (a v : ℕ) → v < 2 ^ 64 → rd64 (wr64 m a v) a ≡ v
unfolding rd64 wr64
rd64-wr64 m a v h = omega (
  arith,
  rd32-wr32 (wr32 m a v) (a + 4) (v / 2 ^ 32),
  rd32-wr32 m a v,
  rd32-SameOn (wr32 m a v) (wr32 (wr32 m a v) (a + 4) (v / 2 ^ 32)) a
      (wr32-SameOn (wr32 m a v) (a + 4) (v / 2 ^ 32) a 4 (inr (omega arith))),
)

pub rd32-offset : (m : Mem) (a : ℕ) → rd32 (offset m a) 0 ≡ rd32 m a
unfolding rd32
rd32-offset m a = ground arith

-- A write elsewhere leaves a 32-bit or 64-bit register as it was.
pub rd32-wr32_ne : (m : Mem) (a v b : ℕ) → Apart a 4 b 4 → rd32 (wr32 m a v) b ≡ rd32 m b
rd32-wr32_ne m a v b h = rd32-SameOn m (wr32 m a v) b (wr32-SameOn m a v b 4 h)

pub rd32-wr16_ne : (m : Mem) (a v b : ℕ) → Apart a 2 b 4 → rd32 (wr16 m a v) b ≡ rd32 m b
unfolding wr16
rd32-wr16_ne m a v b h = rd32-SameOn m (wr16 m a v) b (wr_buf-SameOn m a (le_bytes 2 v) b 4 h)

pub wr64-SameOn : (m : Mem) (a v b n : ℕ) → Apart a 8 b n → SameOn b n m (wr64 m a v)
unfolding wr64
wr64-SameOn m a v b n h x p q =
    wr32-SameOn (wr32 m a v) (a + 4) (v / 2 ^ 32) x 1 (omega arith) x (omega arith) (omega arith)
    ∙ wr32-SameOn m a v x 1 (omega arith) x (omega arith) (omega arith)

pub rd32-wr64_ne : (m : Mem) (a v b : ℕ) → Apart a 8 b 4 → rd32 (wr64 m a v) b ≡ rd32 m b
rd32-wr64_ne m a v b h = rd32-SameOn m (wr64 m a v) b (wr64-SameOn m a v b 4 h)

pub rd64-wr32_ne : (m : Mem) (a v b : ℕ) → Apart a 4 b 8 → rd64 (wr32 m a v) b ≡ rd64 m b
unfolding rd64
rd64-wr32_ne m a v b h =
    omega (arith, rd32-wr32_ne m a v b (omega arith), rd32-wr32_ne m a v (b + 4) (omega arith))

pub rd64-SameOn : (m k : Mem) (a : ℕ) → SameOn a 8 m k → rd64 k a ≡ rd64 m a
unfolding rd64
rd64-SameOn m k a h = omega (
  arith,
  rd32-SameOn m k a (λ x p q. h x (omega arith) (omega arith)),
  rd32-SameOn m k (a + 4) (λ x p q. h x (omega arith) (omega arith)),
)

-- A 64-bit register holds what was written to it, modulo 2 ^ 64.
pub rd64-wr64_wrap : (m : Mem) (a v : ℕ) → rd64 (wr64 m a v) a ≡ v % 2 ^ 64
unfolding rd64 wr64
rd64-wr64_wrap m a v = omega (
  arith,
  rd32-wr32 (wr32 m a v) (a + 4) (v / 2 ^ 32),
  rd32-wr32 m a v,
  rd32-SameOn (wr32 m a v) (wr32 (wr32 m a v) (a + 4) (v / 2 ^ 32)) a
      (wr32-SameOn (wr32 m a v) (a + 4) (v / 2 ^ 32) a 4 (inr (omega arith))),
)
