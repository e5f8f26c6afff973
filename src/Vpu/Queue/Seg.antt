-- ===== src/Vpu/Queue/Seg.antt =====
-- Runs of elements in the ring of mxvp_queue.c, each led by its length in bytes.
use pcie_host_driver.Prelude.{ℕ, ◌+◌, ◌≤◌, ◌<◌, ◌≡◌, ◌∙◌, List, [], ◌∷◌, ◌++◌, arith, length}
use pcie_host_driver.Mmio.{Mem, Bytes, rd_buf, rd32}
use pcie_host_driver.Mmio.Laws.{SameOn, rd_buf-SameOn, rd32-SameOn}

-- `e` stands at `a`: its bytes, of which the first four hold its length.
pub record At (m : Mem) (a : ℕ) (e : Bytes) : Type 0 where
  pub bytes : rd_buf m a (length e) ≡ e
  pub leads : rd32 m a ≡ length e
  pub room : 4 ≤ length e

-- The elements `es` fill the ring at `base` from offset `h` to offset `t`.
abbrev pub Seg : Mem → ℕ → ℕ → ℕ → List Bytes → Type 0
Seg m base h t [] = h ≡ t
Seg m base h t (e ∷ es) = At m (base + h) e × Seg m base (h + length e) t es

pub Seg-le : (m : Mem) (base h t : ℕ) (es : List Bytes) → Seg m base h t es → h ≤ t
Seg-le m base h t [] s = omega arith
Seg-le m base h t (e ∷ es) s = omega (arith, Seg-le m base (h + length e) t es s.1)

At-frame : (m k : Mem) (a : ℕ) (e : Bytes) → SameOn a (length e) m k → At m a e → At k a e
At-frame m k a e same s = record {
  bytes = rd_buf-SameOn m k a (length e) same ∙ s.bytes;
  leads = rd32-SameOn m k a (λ x p q. same x p (omega (arith, s.room))) ∙ s.leads;
  room = s.room;
}

-- A run survives any change outside it.
pub Seg-frame :
    (m k : Mem) (base h t : ℕ) (es : List Bytes)
    → ((x : ℕ) → base + h ≤ x → x < base + t → k x ≡ m x)
    → Seg m base h t es
    → Seg k base h t es
Seg-frame m k base h t [] same s = s
Seg-frame m k base h t (e ∷ es) same s = (
  At-frame m k (base + h) e
      (λ x p q. same x p (omega (arith, Seg-le m base (h + length e) t es s.1))) s.0,
  Seg-frame m k base (h + length e) t es (λ x p q. same x (omega arith) q) s.1,
)

-- A run grows at its end by one element.
pub Seg-snoc :
    (m : Mem) (base h t u : ℕ) (es : List Bytes) (e : Bytes)
    → Seg m base h t es
    → At m (base + t) e
    → u ≡ t + length e
    → Seg m base h u (es ++ e ∷ [])
Seg-snoc m base h t u [] e s at eq = (ground arith, ground arith)
Seg-snoc m base h t u (x ∷ es) e s at eq = (s.0, Seg-snoc m base (h + length x) t u es e s.1 at eq)
