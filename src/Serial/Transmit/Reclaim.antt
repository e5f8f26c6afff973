-- ===== src/Serial/Transmit/Reclaim.antt =====
-- serial/mxlk/mxlk_core.c: taking back the descriptors that the device has sent.
use pcie_host_driver.Prelude.{
  ℕ, zero, suc, ◌+◌, ◌-◌, ◌^◌, ◌<◌, ◌≡◌, ◌≢◌, refl, sym, ap, subst, ◌∙◌, inl, inr, Option, none,
  some, List, [], ◌∷◌, ◌++◌, append-nil, append_assoc, arith, ==-refl, ==-false, length, get_or,
  set, length-set, get_or-set_self,
}
use pcie_host_driver.Serial.Buffers.{BufDesc, BufList, size_add, list_put, pool_free}
use pcie_host_driver.Serial.Ring.{DmaDesc, empty_slot, Mxlk, circular_inc}
use pcie_host_driver.Serial.Ring.Places.{Steps, Steps-inc, Steps-around}
use pcie_host_driver.Serial.Transmit.{reclaim_loop}
use pcie_host_driver.Serial.Transmit.Slots.{
  slot_bd, Holds, Empty, Holds-frame, Empty-frame, Empty-snoc,
}

-- How taking back ends: what the device has sent is in the pool, the ring holds the rest, and the
-- slots are free that were free or are taken back.
pub record Reclaimed (m : Mxlk) (n head tail c : ℕ) (done rest : List BufDesc) (o : Option Mxlk)
    : Type 0 where
  pub link : Mxlk
  pub eq : o ≡ some link
  pub pipe : link.tx ≡ record m.tx { old = head }
  pub mmio : link.mmio ≡ m.mmio
  pub write : link.write ≡ m.write
  pub size : length link.tx_ddr ≡ n
  pub pool : link.tx_pool.chain ≡ m.tx_pool.chain ++ done
  pub full : Holds n link.tx_ddr head rest
  pub free : Empty n link.tx_ddr tail (c + length done)

-- one turn, whose slot has the descriptor
unfoldable reclaim_turn : ℕ → BufDesc → Mxlk → Mxlk
reclaim_turn old bd m = record m {
  tx_pool = pool_free m.tx_pool (some bd);
  tx_ddr = set m.tx_ddr old (record (get_or m.tx_ddr old empty_slot) { bd = none });
  tx_krn = record { pkts = size_add m.tx_krn.pkts 1; bytes = size_add m.tx_krn.bytes bd.length };
}

reclaim_loop-arrived :
    (fuel old : ℕ) (m : Mxlk)
    → reclaim_loop (suc fuel) old old m ≡ some (record m { tx = record m.tx { old = old } })
unfolding reclaim_loop
reclaim_loop-arrived fuel old m = rw (==-refl old, reclaim_loop) refl

reclaim_loop-turn :
    (fuel old head : ℕ) (m : Mxlk) (bd : BufDesc)
    → old ≢ head
    → slot_bd m.tx_ddr old ≡ some bd
    → reclaim_loop (suc fuel) old head m
      ≡ reclaim_loop fuel (circular_inc old m.tx.ndesc) head (reclaim_turn old bd m)
unfolding reclaim_loop reclaim_turn
reclaim_loop-turn fuel old head m bd ne e = rw (==-false old head ne, e, reclaim_loop) refl

-- the free part of the ring ends where the full part starts
pub Steps-rest : (n i t k c : ℕ) → Steps n i t (suc k) → suc k + c ≡ n → Steps n t i c
Steps-rest n i t k c (le, s) e = (
  omega (arith, e),
  elim s [ inl x ↦ inr (omega (arith, x, e)) | inr x ↦ inl (omega (arith, x, e)) ],
)

pool_free-append :
    (pool : BufList) (b : BufDesc) → (pool_free pool (some b)).chain ≡ pool.chain ++ (b ∷ [])
unfolding pool_free list_put
pool_free-append pool b = refl

pub reclaim_loop-Reclaimed :
    (fuel old head tail : ℕ) (m : Mxlk) (n c : ℕ) (done rest : List BufDesc)
    → m.tx.ndesc ≡ n
    → n < 2 ^ 32
    → old < n
    → head < n
    → tail < n
    → Steps n old head (length done)
    → Steps n old tail (length (done ++ rest))
    → length (done ++ rest) + c ≡ n
    → length done < fuel
    → length m.tx_ddr ≡ n
    → Holds n m.tx_ddr old (done ++ rest)
    → Empty n m.tx_ddr tail c
    → Reclaimed m n head tail c done rest (reclaim_loop fuel old head m)
unfolding reclaim_turn
reclaim_loop-Reclaimed zero old head tail m n c done rest ring small ho hh ht sh st sum enough size
      full free =
    absurd (omega (arith, enough))
reclaim_loop-Reclaimed (suc fuel) old head tail m n c [] rest ring small ho hh ht sh st sum enough
      size full free =
    let e : old ≡ head = elim sh.1 [
      | inl x ↦ omega (arith, x)
      | inr x ↦ absurd (omega (arith, x, ho))
    ] in
    record {
      link = record m { tx = record m.tx { old = head } };
      eq = ap (λ a. reclaim_loop (suc fuel) a head m) e ∙ reclaim_loop-arrived fuel head m;
      pipe = refl;
      mmio = refl;
      write = refl;
      size = size;
      pool = sym (append-nil m.tx_pool.chain);
      full = subst (λ a. Holds n m.tx_ddr a rest) e full;
      free = subst (Empty n m.tx_ddr tail) {x = c} {y = c + 0} (omega arith) free;
    }
reclaim_loop-Reclaimed (suc fuel) old head tail m n c (b ∷ done) rest ring small ho hh ht sh st sum
      enough size full free =
    let ne : old ≢ head = λ e. elim sh.1 [
      | inl x ↦ absurd (omega (arith, x, e))
      | inr x ↦ absurd (omega (arith, x, e, sh.0))
    ] in
    let k = length (done ++ rest) in
    let next = circular_inc old m.tx.ndesc in
    let same : next ≡ circular_inc old n = ap (circular_inc old) ring in
    let (sh', ho') = Steps-inc n old head (length done) small ho hh sh in
    let (st', _) = Steps-inc n old tail k small ho ht st in
    let gap : DmaDesc = record (get_or m.tx_ddr old empty_slot) { bd = none } in
    let back = Steps-rest n old tail k c st sum in
    let emptied : slot_bd (set m.tx_ddr old gap) old ≡ none =
      ap DmaDesc.bd (get_or-set_self m.tx_ddr old gap empty_slot (omega (arith, ho, size))) in
    let r =
      reclaim_loop-Reclaimed fuel next head tail (reclaim_turn old b m) n (suc c) done rest ring
        small (subst (λ i. i < n) (sym same) ho') hh ht
        (subst (λ i. Steps n i head (length done)) (sym same) sh')
        (subst (λ i. Steps n i tail k) (sym same) st') (omega (arith, sum)) (omega (arith, enough))
        (length-set m.tx_ddr old gap ∙ size)
        (subst (λ i. Holds n (set m.tx_ddr old gap) i (done ++ rest)) (sym same)
          (Holds-frame n small m.tx_ddr gap old (circular_inc old n) (done ++ rest) (n - 1) ho' ho
            (Steps-around n old ho small) (omega (arith, sum)) full.1))
        (Empty-snoc n small (set m.tx_ddr old gap) old tail c ht ho back emptied
          (Empty-frame n small m.tx_ddr gap old tail c c ht ho back (omega arith) free)) in
    record {
      link = r.link;
      eq = reclaim_loop-turn fuel old head m b ne full.0 ∙ r.eq;
      pipe = r.pipe;
      mmio = r.mmio;
      write = r.write;
      size = r.size;
      pool =
          r.pool
          ∙ ap (λ l. l ++ done) (pool_free-append m.tx_pool b)
          ∙ append_assoc m.tx_pool.chain (b ∷ []) done;
      full = r.full;
      free =
          subst (Empty n r.link.tx_ddr tail) {x = suc c + length done} {y = c + suc (length done)}
            (omega arith) r.free;
    }
