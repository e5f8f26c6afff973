-- ===== src/Serial/Setup/Pools.antt =====
-- serial/mxlk/mxlk_core.c: the pools and the receive ring that the set-up makes.
use pcie_host_driver.Prelude.{
  ℕ, zero, suc, ◌+◌, ◌-◌, ◌≤◌, ◌<◌, ◌≡◌, refl, sym, subst, ◌∙◌, Bool, true, false, Option, none,
  some, List, [], ◌∷◌, ◌++◌, arith, length, is_some, replicate, length-append, length-replicate,
}
use native.Mathlib.Nat.{div-add-mod', mod-lt}
use pcie_host_driver.Serial.Buffers.{BufDesc, BufList, list_put, roundup, alloc_bd}
use pcie_host_driver.Serial.Stream.Filling.{IsUsable, AllUsable}
use pcie_host_driver.Serial.Setup.{Grants, fill_pool}

-- The allocations are all granted.
abbrev pub AllGranted : Grants → Type 0
AllGranted grants = (i : ℕ) → ((grants i).0 ≡ true) × (is_some (grants i).1 ≡ true)

-- A pool of `n` usable descriptors.
pub record IsPoolOf (n : ℕ) (pool : BufList) : Type 0 where
  pub count : length pool.chain ≡ n
  pub usable : AllUsable pool.chain

roundup-le : (n unit : ℕ) → 0 < unit → n ≤ roundup n unit
roundup-le n unit h =
    let a = n + (unit - 1) in
    let parts = div-add-mod' a unit in let small = mod-lt a h in omega (arith, parts, small, h)

AllUsable-append : (xs ys : List BufDesc) → AllUsable xs → AllUsable ys → AllUsable (xs ++ ys)
AllUsable-append [] ys a b = b
AllUsable-append (x ∷ xs) ys (u, a) b = (u, AllUsable-append xs ys a b)

-- A descriptor that is granted is usable.
alloc_bd-granted :
    (bd_ok : Bool) (head : Option ℕ) (cache_line fragment : ℕ)
    → bd_ok ≡ true
    → is_some head ≡ true
    → 0 < cache_line
    → 0 < fragment
    → (bd : BufDesc) × (alloc_bd bd_ok head cache_line fragment ≡ some bd) × IsUsable bd
unfolding alloc_bd
alloc_bd-granted false head cache_line fragment b h line some_bytes = absurd (cc b)
alloc_bd-granted true none cache_line fragment b h line some_bytes = absurd (cc h)
alloc_bd-granted true (some a) cache_line fragment b h line some_bytes = (
  record {
    head = a;
    true_len = fragment;
    bytes = replicate (roundup fragment cache_line) 0;
    data_at = 0;
    length = fragment;
    interface = 0;
  },
  refl,
  (
    some_bytes,
    subst (λ n. fragment ≤ n) (sym (length-replicate (roundup fragment cache_line) 0))
        (roundup-le fragment cache_line line),
  ),
)

fill_pool-step :
    (n i : ℕ) (grants : Grants) (cache_line fragment : ℕ) (pool : BufList) (bd : BufDesc)
    → alloc_bd (grants i).0 (grants i).1 cache_line fragment ≡ some bd
    → fill_pool (suc n) i grants cache_line fragment pool
      ≡ fill_pool n (i + 1) grants cache_line fragment (list_put pool (bd ∷ [])).0
unfolding fill_pool
fill_pool-step n i grants cache_line fragment pool bd e = rw (e, fill_pool) refl

IsPoolOf-put :
    (k : ℕ) (pool : BufList) (bd : BufDesc)
    → IsPoolOf k pool
    → IsUsable bd
    → IsPoolOf (suc k) (list_put pool (bd ∷ [])).0
unfolding list_put
IsPoolOf-put k pool bd p u = record {
  count = omega (arith, length-append pool.chain (bd ∷ []), p.count);
  usable = AllUsable-append pool.chain (bd ∷ []) p.usable (u, tt);
}

fill_pool-none :
    (i : ℕ) (grants : Grants) (cache_line fragment : ℕ) (pool : BufList)
    → fill_pool 0 i grants cache_line fragment pool ≡ (pool, true)
unfolding fill_pool
fill_pool-none i grants cache_line fragment pool = refl

-- Filling a pool gives it all the descriptors.
pub fill_pool-IsPoolOf :
    (n i : ℕ) (grants : Grants) (cache_line fragment k : ℕ) (pool : BufList)
    → AllGranted grants
    → 0 < cache_line
    → 0 < fragment
    → IsPoolOf k pool
    → (pool' : BufList) × (fill_pool n i grants cache_line fragment pool ≡ (pool', true))
      × IsPoolOf (k + n) pool'
fill_pool-IsPoolOf zero i grants cache_line fragment k pool granted line some_bytes p = (
  pool,
  fill_pool-none i grants cache_line fragment pool,
  subst (λ j. IsPoolOf j pool) (omega arith) p,
)
fill_pool-IsPoolOf (suc n) i grants cache_line fragment k pool granted line some_bytes p =
    let (bd, eq, usable) =
      alloc_bd-granted (grants i).0 (grants i).1 cache_line fragment (granted i).0 (granted i).1
        line some_bytes in
    let (pool', rest, is) =
      fill_pool-IsPoolOf n (i + 1) grants cache_line fragment (suc k) (list_put pool (bd ∷ [])).0
        granted line some_bytes (IsPoolOf-put k pool bd p usable) in
    (
      pool',
      fill_pool-step n i grants cache_line fragment pool bd eq ∙ rest,
      subst (λ j. IsPoolOf j pool') (omega arith) is,
    )
