-- ===== src/Serial/Transmit/Submit.antt =====
-- serial/mxlk/mxlk_core.c: giving the device what is queued.
use pcie_host_driver.Prelude.{
  ℕ, zero, suc, ◌+◌, ◌-◌, ◌^◌, ◌≤◌, ◌<◌, ◌≡◌, ◌≢◌, refl, sym, ap, subst, ◌∙◌, ◌⊎◌, inl, inr, false,
  Option, none, some, List, [], ◌∷◌, ◌++◌, append-nil, append_assoc, arith, dec_lt, ==-refl,
  ==-false, Option-cases, length, length-append, length-set, set, get_or-set_self,
}
use pcie_host_driver.Serial.Buffers.{BufDesc, list_get}
use pcie_host_driver.Serial.Buffers.Pool.{Taken, list_get-Taken}
use pcie_host_driver.Serial.Ring.{DmaDesc, empty_slot, Mxlk, circular_inc, Dma, map_dma}
use pcie_host_driver.Serial.Ring.Places.{Steps, Steps-around, circular_inc-cases}
use pcie_host_driver.Serial.Transmit.{tx_submit, submit_loop}
use pcie_host_driver.Serial.Transmit.Slots.{
  slot_bd, Holds, Empty, Holds-frame, Holds-snoc, Empty-frame,
}
use pcie_host_driver.Serial.Transmit.Described.{Described, Described-told}

-- How giving ends: what has left the list is in the ring behind what was there.
pub record SubmitEnd (dma : Dma) (m : Mxlk) (n head : ℕ) (bds : List BufDesc)
    (o : Option (Mxlk × ℕ)) : Type 0 where
  pub link : Mxlk
  pub tail : ℕ
  pub eq : o ≡ some (link, tail)
  pub pipe : link.tx ≡ m.tx
  pub pool : link.tx_pool ≡ m.tx_pool
  pub size : length link.tx_ddr ≡ n
  pub sent : List BufDesc
  pub write : m.write.chain ≡ sent ++ link.write.chain
  pub full : Holds n link.tx_ddr head (bds ++ sent)
  pub told : Described dma n link.mmio m.tx.tdr head (bds ++ sent)
  pub steps : Steps n head tail (length (bds ++ sent))
  pub gaps : ℕ
  pub sum : length (bds ++ sent) + gaps ≡ n
  pub free : Empty n link.tx_ddr tail gaps
  pub place : tail < n
  pub stop : (link.write.chain ≡ []) ⊎ (suc (length (bds ++ sent)) ≡ n)

submit_loop-full :
    (fuel : ℕ) (dma : Dma) (tail head : ℕ) (m : Mxlk)
    → circular_inc tail m.tx.ndesc ≡ head
    → submit_loop (suc fuel) dma tail head m ≡ some (m, tail)
unfolding submit_loop
submit_loop-full fuel dma tail head m e = rw (e, ==-refl head, submit_loop) refl

submit_loop-drained :
    (fuel : ℕ) (dma : Dma) (tail head : ℕ) (m : Mxlk)
    → circular_inc tail m.tx.ndesc ≢ head
    → (list_get m.write).0 ≡ none
    → submit_loop (suc fuel) dma tail head m ≡ some (m, tail)
unfolding submit_loop
submit_loop-drained fuel dma tail head m ne e =
    rw (==-false (circular_inc tail m.tx.ndesc) head ne, e, submit_loop) refl

unfoldable submit_turn : Dma → ℕ → BufDesc → Mxlk → Mxlk
submit_turn dma tail b m =
    tx_submit tail b (map_dma dma b).0 (record m { write = (list_get m.write).1 })

submit_loop-turn :
    (fuel : ℕ) (dma : Dma) (tail head : ℕ) (m : Mxlk) (b : BufDesc)
    → circular_inc tail m.tx.ndesc ≢ head
    → (list_get m.write).0 ≡ some b
    → (map_dma dma b).1 ≡ false
    → submit_loop (suc fuel) dma tail head m
      ≡ submit_loop fuel dma (circular_inc tail m.tx.ndesc) head (submit_turn dma tail b m)
unfolding submit_loop submit_turn
submit_loop-turn fuel dma tail head m b ne e mapped =
    rw (==-false (circular_inc tail m.tx.ndesc) head ne, e) (rw (mapped, submit_loop) refl)

-- The place after the tail is the head if the ring is full, and else is one more step on.
Steps-next :
    (n head tail k : ℕ)
    → head < n
    → tail < n
    → n < 2 ^ 32
    → Steps n head tail k
    → ((circular_inc tail n ≡ head) × (suc k ≡ n))
      ⊎ ((circular_inc tail n ≢ head) × Steps n head (circular_inc tail n) (suc k))
Steps-next n head tail k hh ht small (le, s) = elim (circular_inc-cases tail n ht small) [
  | inl (more, e) ↦ elim (dec_lt (suc k) n) [
    | yes lt ↦ elim s [
      | inl x ↦ inr ((λ h. omega (arith, h, e, x)), (lt, inl (omega (arith, e, x))))
      | inr x ↦ inr ((λ h. omega (arith, h, e, x, lt)), (lt, inr (omega (arith, e, x))))
    ]
    | no ge ↦ elim s [
      | inl x ↦ absurd (omega (arith, x, more, ge, le))
      | inr x ↦ inl (omega (arith, x, e, ge, le), omega (arith, ge, le))
    ]
  ]
  | inr (last, e) ↦ elim (dec_lt (suc k) n) [
    | yes lt ↦ elim s [
      | inl x ↦ inr ((λ h. omega (arith, h, e, x, last, lt)), (lt, inr (omega (arith, e, x, last))))
      | inr x ↦ absurd (omega (arith, x, last, hh, lt))
    ]
    | no ge ↦ elim s [
      | inl x ↦ inl (omega (arith, x, e, ge, le, last), omega (arith, ge, le))
      | inr x ↦ absurd (omega (arith, x, last, hh, le))
    ]
  ]
]

SubmitEnd-stop :
    (dma : Dma) (m : Mxlk) (n head tail c : ℕ) (bds : List BufDesc) (o : Option (Mxlk × ℕ))
    → o ≡ some (m, tail)
    → length m.tx_ddr ≡ n
    → Holds n m.tx_ddr head bds
    → Steps n head tail (length bds)
    → length bds + c ≡ n
    → Empty n m.tx_ddr tail c
    → tail < n
    → Described dma n m.mmio m.tx.tdr head bds
    → (m.write.chain ≡ []) ⊎ (suc (length bds) ≡ n)
    → SubmitEnd dma m n head bds o
SubmitEnd-stop dma m n head tail c bds o eq size full steps sum free place told stop =
    let e = sym (append-nil bds) in
    record {
      link = m;
      tail = tail;
      eq = eq;
      pipe = refl;
      pool = refl;
      size = size;
      sent = [];
      write = refl;
      full = subst (Holds n m.tx_ddr head) e full;
      told = subst (Described dma n m.mmio m.tx.tdr head) e told;
      steps = subst (λ l. Steps n head tail (length l)) e steps;
      gaps = c;
      sum = ap (λ l. length l + c) (append-nil bds) ∙ sum;
      free = free;
      place = place;
      stop = subst (λ l. (m.write.chain ≡ []) ⊎ (suc (length l) ≡ n)) e stop;
    }

-- One more descriptor is given first.
SubmitEnd-turn :
    (dma : Dma) (m m' : Mxlk) (n head : ℕ) (bds : List BufDesc) (b : BufDesc)
    (o o' : Option (Mxlk × ℕ))
    → o ≡ o'
    → m'.tx ≡ m.tx
    → m'.tx_pool ≡ m.tx_pool
    → m.write.chain ≡ b ∷ m'.write.chain
    → SubmitEnd dma m' n head (bds ++ (b ∷ [])) o'
    → SubmitEnd dma m n head bds o
SubmitEnd-turn dma m m' n head bds b o o' step pipe pool taken r =
    let e = append_assoc bds (b ∷ []) r.sent in
    record {
      link = r.link;
      tail = r.tail;
      eq = step ∙ r.eq;
      pipe = r.pipe ∙ pipe;
      pool = r.pool ∙ pool;
      size = r.size;
      sent = b ∷ r.sent;
      write = taken ∙ ap (λ l. b ∷ l) r.write;
      full = subst (Holds n r.link.tx_ddr head) e r.full;
      told =
          subst (λ p. Described dma n r.link.mmio p.tdr head (bds ++ (b ∷ r.sent))) pipe
            (subst (Described dma n r.link.mmio m'.tx.tdr head) e r.told);
      steps = subst (λ l. Steps n head r.tail (length l)) e r.steps;
      gaps = r.gaps;
      sum = ap (λ l. length l + r.gaps) (sym e) ∙ r.sum;
      free = r.free;
      place = r.place;
      stop = subst (λ l. (r.link.write.chain ≡ []) ⊎ (suc (length l) ≡ n)) e r.stop;
    }

pub submit_loop-SubmitEnd :
    (fuel : ℕ) (dma : Dma) (head tail : ℕ) (m : Mxlk) (n c : ℕ) (bds : List BufDesc)
    → ((b : BufDesc) → (map_dma dma b).1 ≡ false)
    → m.tx.ndesc ≡ n
    → n < 2 ^ 32
    → head < n
    → tail < n
    → Steps n head tail (length bds)
    → length bds + c ≡ n
    → n ≤ fuel + length bds
    → length m.tx_ddr ≡ n
    → Holds n m.tx_ddr head bds
    → Empty n m.tx_ddr tail c
    → Described dma n m.mmio m.tx.tdr head bds
    → SubmitEnd dma m n head bds (submit_loop fuel dma tail head m)
unfolding submit_turn tx_submit map_dma
submit_loop-SubmitEnd zero dma head tail m n c bds mapped ring small hh ht st sum enough size full
      free told =
    absurd (omega (arith, enough, st.0))
submit_loop-SubmitEnd (suc fuel) dma head tail m n zero bds mapped ring small hh ht st sum enough
      size full free told =
    absurd (omega (arith, sum, st.0))
submit_loop-SubmitEnd (suc fuel) dma head tail m n (suc c) bds mapped ring small hh ht st sum enough
      size full free told =
    let here = submit_loop (suc fuel) dma tail head m in
    let next = circular_inc tail m.tx.ndesc in
    let same : next ≡ circular_inc tail n = ap (circular_inc tail) ring in
    elim (Steps-next n head tail (length bds) hh ht small st) [
      | inl (e, all) ↦
          SubmitEnd-stop dma m n head tail (suc c) bds here
            (submit_loop-full fuel dma tail head m (same ∙ e)) size full st sum free ht told
            (inr all)
      | inr (ne, st') ↦
          let ne' : next ≢ head = λ e. ne (sym same ∙ e) in
          let taken = list_get-Taken m.write in
          elim (Option-cases (list_get m.write).0) [
            | inl e ↦
                SubmitEnd-stop dma m n head tail (suc c) bds here
                  (submit_loop-drained fuel dma tail head m ne' e) size full st sum free ht told
                  (inl (subst (λ o. Taken m.write.chain o (list_get m.write).1.chain) e taken).0)
            | inr (b, e) ↦
                let d = (map_dma dma b).0 in
                let m' = submit_turn dma tail b m in
                let ddr = set m.tx_ddr tail d in
                let given : slot_bd ddr tail ≡ some b =
                  ap DmaDesc.bd
                    (get_or-set_self m.tx_ddr tail d empty_slot (omega (arith, ht, size))) in
                let more = length-append bds (b ∷ []) in
                let ht' : next < n = elim (circular_inc-cases tail n ht small) [
                  | inl (lt, x) ↦ omega (arith, lt, x, same)
                  | inr (last, x) ↦ omega (arith, last, x, same)
                ] in
                SubmitEnd-turn dma m m' n head bds b here (submit_loop fuel dma next head m')
                  (submit_loop-turn fuel dma tail head m b ne' e (mapped b)) refl refl
                  (subst (λ o. Taken m.write.chain o (list_get m.write).1.chain) e taken)
                  (submit_loop-SubmitEnd fuel dma head next m' n c (bds ++ (b ∷ [])) mapped ring
                    small hh ht'
                    (subst (Steps n head next) {x = suc (length bds)} {y = length (bds ++ (b ∷ []))}
                      (omega (arith, more))
                      (subst (λ i. Steps n head i (suc (length bds))) (sym same) st'))
                    (omega (arith, sum, more)) (omega (arith, enough, more))
                    (length-set m.tx_ddr tail d ∙ size)
                    (Holds-snoc n small ddr tail head bds b hh ht st given (
                      Holds-frame n small m.tx_ddr d tail head bds (length bds) hh ht st
                        (omega arith) full))
                    (subst (λ i. Empty n ddr i c) (sym same)
                      (Empty-frame n small m.tx_ddr d tail (circular_inc tail n) c (n - 1)
                        (subst (λ i. i < n) same ht') ht (Steps-around n tail ht small)
                        (omega (arith, sum)) free.1))
                    (Described-told dma n m.mmio m.tx.tdr tail head bds b small hh ht st told))
          ]
    ]
