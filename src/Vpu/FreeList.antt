-- ===== src/Vpu/FreeList.antt =====
-- Free lists threaded through an array: `mem->list` of mxvp_mem.c and `list->base` of mxvp_bspec.c
-- both keep in each free slot the slot that follows it.
use pcie_host_driver.Prelude.{
  ℕ, zero, suc, ◌+◌, ◌<◌, ◌≤◌, ◌≡◌, ◌≢◌, refl, sym, Option, none, some, List, [], ◌∷◌, arith,
}

-- A slot pointer, or NULL.
abbrev pub Slot : Type 0
Slot = Option ℕ

-- `i` is none of the slots `is`.
abbrev pub NotIn : ℕ → List ℕ → Type 0
NotIn i [] = Unit {0}
NotIn i (j ∷ js) = (i ≢ j) × NotIn i js

abbrev pub Distinct : List ℕ → Type 0
Distinct [] = Unit {0}
Distinct (i ∷ is) = NotIn i is × Distinct is

abbrev pub AllBelow : ℕ → List ℕ → Type 0
AllBelow n [] = Unit {0}
AllBelow n (i ∷ is) = (i < n) × AllBelow n is

-- From `p` the links `next` lead through the slots `is` to NULL.
abbrev pub Chain : (ℕ → Slot) → Slot → List ℕ → Type 0
Chain next p [] = p ≡ none
Chain next p (i ∷ is) = (p ≡ some i) × Chain next (next i) is

-- The free slots of an array of `n`, in the order in which they are handed out.
pub record IsFree (n : ℕ) (next : ℕ → Slot) (p : Slot) (is : List ℕ) : Type 0 where
  pub chain : Chain next p is
  pub distinct : Distinct is
  pub below : AllBelow n is

-- The slots from `i`, `k` of them.
abbrev pub range_from : ℕ → ℕ → List ℕ
range_from i zero = []
range_from i (suc k) = i ∷ range_from (suc i) k

-- A chain survives a change at a slot outside it.
pub Chain-frame :
    (next next' : ℕ → Slot) (p : Slot) (is : List ℕ) (j : ℕ)
    → ((i : ℕ) → i ≢ j → next' i ≡ next i)
    → NotIn j is
    → Chain next p is
    → Chain next' p is
Chain-frame next next' p [] j same out c = c
Chain-frame next next' p (i ∷ is) j same out c =
    (c.0, rw (same i (λ e. out.0 (sym e))) (Chain-frame next next' (next i) is j same out.1 c.1))

-- Taking the first free slot leaves the others.
pub IsFree-take :
    (n : ℕ) (next : ℕ → Slot) (p : Slot) (i : ℕ) (is : List ℕ)
    → IsFree n next p (i ∷ is)
    → IsFree n next (next i) is
IsFree-take n next p i is f = record {
  chain = f.chain.1;
  distinct = f.distinct.1;
  below = f.below.1;
}

-- A slot that was not free becomes the first free one.
pub IsFree-put :
    (n : ℕ) (next next' : ℕ → Slot) (p : Slot) (j : ℕ) (is : List ℕ)
    → ((i : ℕ) → i ≢ j → next' i ≡ next i)
    → next' j ≡ p
    → j < n
    → NotIn j is
    → IsFree n next p is
    → IsFree n next' (some j) (j ∷ is)
IsFree-put n next next' p j is same here inside out f = record {
  chain = (refl, rw here (Chain-frame next next' p is j same out f.chain));
  distinct = (out, f.distinct);
  below = (inside, f.below);
}

NotIn-range_from : (j i k : ℕ) → j < i → NotIn j (range_from i k)
NotIn-range_from j i zero h = tt
NotIn-range_from j i (suc k) h = (omega arith, NotIn-range_from j (suc i) k (omega arith))

Distinct-range_from : (i k : ℕ) → Distinct (range_from i k)
Distinct-range_from i zero = tt
Distinct-range_from i (suc k) =
    (NotIn-range_from i (suc i) k (omega arith), Distinct-range_from (suc i) k)

AllBelow-range_from : (n i k : ℕ) → i + k ≤ n → AllBelow n (range_from i k)
AllBelow-range_from n i zero h = tt
AllBelow-range_from n i (suc k) h = (omega arith, AllBelow-range_from n (suc i) k (omega arith))

Chain-range_from :
    (next : ℕ → Slot) (i k : ℕ)
    → ((j : ℕ) → j < i + k → next j ≡ some (suc j))
    → next (i + k) ≡ none
    → Chain next (some i) (range_from i (suc k))
Chain-range_from next i zero links end = (refl, (let e : i ≡ i + zero = omega arith in rw e end))
Chain-range_from next i (suc k) links end = (
  refl,
  rw (links i (omega arith)) (
      Chain-range_from next (suc i) k (λ j h. links j (omega arith))
        (let e : suc i + k ≡ i + suc k = omega arith in rw e end)),
)

-- An array linked in order, ended at its last slot, is free from the first slot to the last.
pub IsFree-range_from :
    (next : ℕ → Slot) (k : ℕ)
    → ((j : ℕ) → j < k → next j ≡ some (suc j))
    → next k ≡ none
    → IsFree (suc k) next (some 0) (range_from 0 (suc k))
IsFree-range_from next k links end = record {
  chain =
      Chain-range_from next 0 k (λ j h. links j (omega arith))
        (let e : 0 + k ≡ k = omega arith in rw e end);
  distinct = Distinct-range_from 0 (suc k);
  below = AllBelow-range_from (suc k) 0 (suc k) (omega arith);
}
