-- ===== src/Serial/Buffers/Pool.antt =====
-- serial/mxlk/mxlk_core.c: the counts of a list of descriptors, and what the pools keep.
use pcie_host_driver.Prelude.{
  ℕ, ◌+◌, ◌^◌, ◌<◌, ◌≡◌, ◌↔◌, refl, sym, ap, subst, ◌∙◌, append-nil, Option, none, some, List, [],
  ◌∷◌, ◌++◌, arith, length, length-append,
}
use pcie_host_driver.Serial.Buffers.{
  BufDesc, BufList, size_add, count_in, put_einval, list_put, get_from, list_get, pool_free,
}

-- the bytes that the descriptors of a chain announce
unfoldable pub total : List BufDesc → ℕ
total [] = 0
total (bd ∷ bds) = bd.length + total bds

-- The counts of a list are those of its chain.
pub record IsCounted (l : BufList) : Type 0 where
  pub bytes : l.bytes ≡ total l.chain
  pub buffers : l.buffers ≡ length l.chain
  pub small : total l.chain < 2 ^ 64
  pub few : length l.chain < 2 ^ 64

total-append : (xs ys : List BufDesc) → total (xs ++ ys) ≡ total xs + total ys
unfolding total
total-append [] ys = omega arith
total-append (x ∷ xs) ys = omega (arith, total-append xs ys)

-- The walk adds the chain's bytes and descriptors to the counts.
count_in-total :
    (bytes buffers : ℕ) (bds : List BufDesc)
    → bytes + total bds < 2 ^ 64
    → buffers + length bds < 2 ^ 64
    → count_in bytes buffers bds ≡ (bytes + total bds, buffers + length bds)
unfolding total count_in
count_in-total bytes buffers [] small few =
    ap (λ b. (b, buffers)) (omega arith) ∙ ap (λ n. (bytes + 0, n)) (omega arith)
count_in-total bytes buffers (bd ∷ bds) small few =
    let b = bytes + bd.length in
    let n = buffers + 1 in
    let step-bytes : size_add bytes bd.length ≡ b = omega (arith, small) in
    let step-buffers : size_add buffers 1 ≡ n = omega (arith, few) in
    let rest = count_in-total b n bds (omega (arith, small)) (omega (arith, few)) in
    ap (λ x. count_in x (size_add buffers 1) bds) step-bytes
    ∙ ap (λ x. count_in b x bds) step-buffers
    ∙ rest
    ∙ ap (λ x. (x, n + length bds)) (omega arith)
    ∙ ap (λ x. (bytes + (bd.length + total bds), x)) (omega arith)

-- Putting a chain that is not empty appends it, with the counts right; NULL is refused and changes
-- nothing.
pub list_put-IsCounted :
    (l : BufList) (bds : List BufDesc)
    → IsCounted l
    → total l.chain + total bds < 2 ^ 64
    → length l.chain + length bds < 2 ^ 64
    → IsCounted (list_put l bds).0
      × ((list_put l bds).0.chain ≡ l.chain ++ bds)
      × (((list_put l bds).1 ≡ put_einval) ↔ (bds ≡ []))
unfolding list_put
list_put-IsCounted l [] c small few = (c, sym (append-nil l.chain), ((λ e. refl), (λ e. refl)))
list_put-IsCounted l (bd ∷ bds) c small few =
    let counts =
      count_in-total l.bytes l.buffers (bd ∷ bds) (omega (arith, small, c.bytes))
        (omega (arith, few, c.buffers)) in
    let totals = total-append l.chain (bd ∷ bds) in
    let lengths = length-append l.chain (bd ∷ bds) in
    (
      record {
        bytes = ap (λ c. c.0) counts ∙ omega (arith, c.bytes, totals);
        buffers = ap (λ c. c.1) counts ∙ omega (arith, c.buffers, lengths);
        small = omega (arith, small, totals);
        few = omega (arith, few, lengths);
      },
      refl,
      ((λ e. cc), (λ e. cc)),
    )

-- What taking from a chain gives, and the chain that is left.
abbrev pub Taken : List BufDesc → Option BufDesc → List BufDesc → Type 0
Taken c none c' = (c ≡ []) × (c' ≡ [])
Taken c (some bd) c' = c ≡ bd ∷ c'

get_from-IsCounted :
    (l : BufList) (c : List BufDesc)
    → l.chain ≡ c
    → IsCounted l
    → IsCounted (get_from l c).1 × Taken l.chain (get_from l c).0 (get_from l c).1.chain
unfolding get_from total
get_from-IsCounted l [] e is = (is, (e, e))
get_from-IsCounted l (bd ∷ bds) e is =
    let small = subst (λ c. total c < 2 ^ 64) e is.small in
    let few = subst (λ c. length c < 2 ^ 64) e is.few in
    let bytes = subst (λ c. l.bytes ≡ total c) e is.bytes in
    let buffers = subst (λ c. l.buffers ≡ length c) e is.buffers in
    (
      record {
        bytes = omega (arith, bytes, small);
        buffers = omega (arith, buffers, few);
        small = omega (arith, small);
        few = omega (arith, few);
      },
      e,
    )

-- Getting takes the first descriptor, with the counts right, and NULL only from an empty list.
pub list_get-IsCounted :
    (l : BufList)
    → IsCounted l
    → IsCounted (list_get l).1 × Taken l.chain (list_get l).0 (list_get l).1.chain
unfolding list_get
list_get-IsCounted l is = get_from-IsCounted l l.chain refl is

get_from-Taken :
    (l : BufList) (c : List BufDesc)
    → l.chain ≡ c
    → Taken l.chain (get_from l c).0 (get_from l c).1.chain
unfolding get_from
get_from-Taken l [] e = (e, e)
get_from-Taken l (bd ∷ bds) e = e

-- The chain alone, whatever the counts.
pub list_get-Taken : (l : BufList) → Taken l.chain (list_get l).0 (list_get l).1.chain
unfolding list_get
list_get-Taken l = get_from-Taken l l.chain refl

-- how many descriptors are in hand
abbrev pub held : Option BufDesc → ℕ
held none = 0
held (some bd) = 1

pub Taken-held :
    (c : List BufDesc) (bd : Option BufDesc) (c' : List BufDesc)
    → Taken c bd c'
    → held bd + length c' ≡ length c
Taken-held c none c' (e, e') = omega (arith, ap length e', ap length e)
Taken-held c (some bd) c' e = omega (arith, ap length e)

pub length-pool_free :
    (pool : BufList) (bd : Option BufDesc)
    → length (pool_free pool bd).chain ≡ held bd + length pool.chain
unfolding pool_free list_put
length-pool_free pool none = omega arith
length-pool_free pool (some bd) = omega (arith, length-append pool.chain (bd ∷ []))
