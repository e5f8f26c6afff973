-- ===== src/Serial/Stream/Filling.antt =====
-- serial/mxlk/mxlk_core.c: one turn of the loop of `mxlk_core_write`.
use pcie_host_driver.Prelude.{
  ℕ, suc, ◌+◌, ◌≤◌, ◌<◌, min, ◌≡◌, ◌≢◌, refl, sym, ap, subst, ◌∙◌, ◌⊎◌, Bool, true, Option, none,
  some, List, [], ◌∷◌, ◌++◌, arith, length, take, drop, length-take, drop-take-append, take-append,
}
use pcie_host_driver.Mmio.{Bytes}
use pcie_host_driver.Serial.Buffers.{
  BufDesc, BufList, size_add, list_get, fresh, fresh_of, pool_alloc,
}
use pcie_host_driver.Serial.Buffers.Pool.{Taken, list_get-Taken, held}
use pcie_host_driver.Serial.Stream.{Traffic, Written, link_before, fill, write_loop}
use pcie_host_driver.Serial.Stream.Contents.{Fits, content, contents, Stops}

-- A descriptor of the pool: its memory is as long as it says, and not empty.
abbrev pub IsUsable : BufDesc → Type 0
IsUsable bd = (0 < bd.true_len) × (bd.true_len ≤ length bd.bytes)

abbrev pub AllUsable : List BufDesc → Type 0
AllUsable [] = Unit
AllUsable (bd ∷ bds) = IsUsable bd × AllUsable bds

-- a descriptor in hand that can take bytes
abbrev pub HasRoom : Option BufDesc → Type 0
HasRoom none = Unit
HasRoom (some bd) = (0 < bd.length) × Fits bd

-- Every descriptor of a chain is the interface's.
abbrev pub AllFrom : ℕ → List BufDesc → Type 0
AllFrom id [] = Unit
AllFrom id (bd ∷ bds) = (bd.interface ≡ id) × AllFrom id bds

-- The descriptor that a turn leaves.
abbrev pub filled : BufDesc → ℕ → Bytes → BufDesc
filled bd id src =
    let m = min bd.length (length src) in
    record (fill bd (take m src)) { length = m; interface = id }

pub content-filled :
    (bd : BufDesc) (id : ℕ) (src : Bytes)
    → Fits bd
    → content (filled bd id src) ≡ take (min bd.length (length src)) src
unfolding fill
content-filled bd id src fits =
    let m = min bd.length (length src) in
    let new = take m src in
    let tail = drop (bd.data_at + length new) bd.bytes in
    ap (λ b. take m b) (drop-take-append bd.data_at bd.bytes (new ++ tail) (omega (arith, fits)))
    ∙ take-append m new tail (omega (arith, length-take m src))

-- A descriptor taken from a pool, and the pool without it.
pub record Allocated (pool : List BufDesc) (hand : Option BufDesc) (pool' : List BufDesc)
    : Type 0 where
  pub stops : Stops hand pool'
  pub room : HasRoom hand
  pub usable : AllUsable pool'
  pub whole : held hand + length pool' ≡ length pool

fresh_of-Allocated :
    (pool : List BufDesc) (bd : Option BufDesc) (pool' : List BufDesc)
    → Taken pool bd pool'
    → AllUsable pool
    → Allocated pool (fresh_of bd) pool'
unfolding fresh_of fresh
fresh_of-Allocated pool none pool' (e, e') usable = record {
  stops = e';
  room = tt;
  usable = subst AllUsable (sym e') tt;
  whole = omega (arith, ap length e, ap length e');
}
fresh_of-Allocated pool (some bd) pool' e usable =
    let ((positive, inside), rest) = subst AllUsable e usable in
    record {
      stops = tt;
      room = (positive, omega (arith, inside));
      usable = rest;
      whole = omega (arith, ap length e);
    }

pub pool_alloc-Allocated :
    (pool : BufList)
    → AllUsable pool.chain
    → Allocated pool.chain (pool_alloc pool).0 (pool_alloc pool).1.chain
unfolding pool_alloc
pool_alloc-Allocated pool usable =
    fresh_of-Allocated pool.chain (list_get pool).0 (list_get pool).1.chain (list_get-Taken pool)
      usable

-- How the loop ends that starts with `hand`.
pub record WriteEnd (id : ℕ) (hand : Option BufDesc) (pool : BufList) (src : Bytes)
    (o : Option Written) : Type 0 where
  pub chain : List BufDesc
  pub left : BufList
  pub traffic : Traffic
  pub rest : Bytes
  pub eq : o ≡ some (chain, left, traffic, rest)
  pub kept : contents chain ++ rest ≡ src
  pub whole : length chain + length left.chain ≡ held hand + length pool.chain
  pub from : AllFrom id chain
  pub full : (rest ≡ []) ⊎ (left.chain ≡ [])

-- a descriptor in hand only while there are bytes
abbrev pub Wanted : Option BufDesc → Bytes → Type 0
Wanted none src = Unit
Wanted (some bd) src = src ≢ []

pub Wanted-any : (hand : Option BufDesc) (src : Bytes) → src ≢ [] → Wanted hand src
Wanted-any none src h = tt
Wanted-any (some bd) src h = h

module _ (fuel : ℕ) (copies : ℕ → Bool) (n id : ℕ) (pool : BufList) (t : Traffic) where
  abbrev pub bumped : ℕ → Traffic
  bumped m = record { pkts = size_add t.pkts 1; bytes = size_add t.bytes m }

  pub write_loop-none :
      (src : Bytes) → write_loop (suc fuel) copies n id pool t none src ≡ some ([], pool, t, src)
  unfolding write_loop
  write_loop-none src = refl

  pub write_loop-last :
      (bd : BufDesc) (b : ℕ) (bs : Bytes)
      → copies n ≡ true
      → drop (min bd.length (length (b ∷ bs))) (b ∷ bs) ≡ []
      → write_loop (suc fuel) copies n id pool t (some bd) (b ∷ bs)
        ≡ some (filled bd id (b ∷ bs) ∷ [], pool, bumped (min bd.length (length (b ∷ bs))), [])
  unfolding write_loop
  write_loop-last bd b bs good e = rw (good, e, write_loop) refl

  pub write_loop-more :
      (bd : BufDesc) (b c : ℕ) (bs cs : Bytes) (chain : List BufDesc) (left : BufList)
      (t' : Traffic) (rest : Bytes)
      → copies n ≡ true
      → drop (min bd.length (length (b ∷ bs))) (b ∷ bs) ≡ c ∷ cs
      → write_loop fuel copies
          (n + 1)
          id
          (pool_alloc pool).1
          (bumped (min bd.length (length (b ∷ bs))))
          (pool_alloc pool).0
          (drop (min bd.length (length (b ∷ bs))) (b ∷ bs))
        ≡ some (chain, left, t', rest)
      → write_loop (suc fuel) copies n id pool t (some bd) (b ∷ bs)
        ≡ some (filled bd id (b ∷ bs) ∷ chain, left, t', rest)
  unfolding write_loop
  write_loop-more bd b c bs cs chain left t' rest good e tail =
      rw (good, e) (ap (link_before (filled bd id (b ∷ bs))) tail)
