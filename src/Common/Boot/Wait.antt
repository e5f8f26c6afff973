-- ===== src/Common/Boot/Wait.antt =====
-- common/mx_boot.c: how long the wait for a transfer takes.
use pcie_host_driver.Prelude.{
  ℕ, zero, suc, ◌+◌, ◌-◌, ◌≤◌, ◌<◌, ◌≡◌, ◌≢◌, refl, ◌∙◌, true, false, Option, none, some, inl, inr,
  arith, ◌==◌, ==_iff, Bool-cases,
}
use pcie_host_driver.Mmio.{Mem, rd32}
use pcie_host_driver.Common.Opmode.{Opmode, same_mode, get_opmode}
use pcie_host_driver.Common.Boot.{
  WaitStatus, complete, etime, eproto, wait_loop, wait_for_transfer_completion, reg_mf_ready,
  status_ready, status_pending, status_starting, status_dma_done,
}

-- A wait that is over.
pub record Ended (turns : ℕ) (o : Option (WaitStatus × ℕ)) : Type 0 where
  pub status : WaitStatus
  pub turn : ℕ
  pub eq : o ≡ some (status, turn)
  pub soon : turn ≤ turns

Ended-later :
    (turns turns' : ℕ) (o o' : Option (WaitStatus × ℕ))
    → o ≡ o'
    → turns' ≤ turns
    → Ended turns' o'
    → Ended turns o
Ended-later turns turns' o o' step le e = record {
  status = e.status;
  turn = e.turn;
  eq = step ∙ e.eq;
  soon = omega (arith, le, e.soon);
}

-- Each turn that does not end the wait uses one of the two counters.
wait_loop-Ended :
    (fuel : ℕ) (dev : ℕ → Mem) (mode : Opmode) (n start pending : ℕ)
    → ((i : ℕ) → (rd32 (dev i) reg_mf_ready == status_ready) ≡ false)
    → start + pending < fuel
    → Ended (n + (start + pending)) (wait_loop fuel dev mode n start pending)
unfolding wait_loop
wait_loop-Ended zero dev mode n start pending busy enough = absurd (omega (arith, enough))
wait_loop-Ended (suc fuel) dev mode n start pending busy enough =
    let ready = rd32 (dev n) reg_mf_ready in
    let stop : (s : WaitStatus) → Ended (n + (start + pending)) (some (s, n)) =
      λ s. record { status = s; turn = n; eq = refl; soon = omega arith } in
    elim (Bool-cases (same_mode mode (get_opmode (dev n)))) [
      | inr changed ↦ rw (changed, wait_loop) (stop complete)
      | inl same ↦ elim (Bool-cases (ready == status_dma_done)) [
        | inl d ↦ rw (same, busy n, d, wait_loop) (stop complete)
        | inr d ↦ elim (Bool-cases (ready == status_pending)) [
          | inl p ↦ elim (Bool-cases (pending == 0)) [
            | inl z ↦ rw (same, busy n, d, p, z, wait_loop) (stop etime)
            | inr z ↦
                let more : pending ≢ 0 = λ e. absurd (cc ((==_iff pending 0).1 e, z)) in
                Ended-later (n + (start + pending)) (n + 1 + (start + (pending - 1)))
                  (wait_loop (suc fuel) dev mode n start pending)
                  (wait_loop fuel dev mode (n + 1) start (pending - 1))
                  (rw (same, busy n, d, p, z) refl) (omega (arith, more))
                  (wait_loop-Ended fuel dev mode (n + 1) start (pending - 1) busy
                    (omega (arith, enough, more)))
          ]
          | inr p ↦ elim (Bool-cases (ready == status_starting)) [
            | inr q ↦ rw (same, busy n, d, p, q, wait_loop) (stop eproto)
            | inl q ↦ elim (Bool-cases (start == 0)) [
              | inl z ↦ rw (same, busy n, d, p, q, z, wait_loop) (stop etime)
              | inr z ↦
                  let more : start ≢ 0 = λ e. absurd (cc ((==_iff start 0).1 e, z)) in
                  Ended-later (n + (start + pending)) (n + 1 + (start - 1 + pending))
                    (wait_loop (suc fuel) dev mode n start pending)
                    (wait_loop fuel dev mode (n + 1) (start - 1) pending)
                    (rw (same, busy n, d, p, q, z) refl) (omega (arith, more))
                    (wait_loop-Ended fuel dev mode (n + 1) (start - 1) pending busy
                      (omega (arith, enough, more)))
            ]
          ]
        ]
      ]
    ]

wait_loop-ready :
    (fuel : ℕ) (dev : ℕ → Mem) (mode : Opmode) (n : ℕ)
    → ((i : ℕ) → (rd32 (dev i) reg_mf_ready == status_ready) ≡ true)
    → ((i : ℕ) → same_mode mode (get_opmode (dev i)) ≡ true)
    → wait_loop fuel dev mode n 1500 100 ≡ none
unfolding wait_loop
wait_loop-ready zero dev mode n ready same = refl
wait_loop-ready (suc fuel) dev mode n ready same =
    rw (same n, ready n) (wait_loop-ready fuel dev mode (n + 1) ready same)

-- While the device's status is never "ready", a wait ends by turn 1600: it takes at most 1500 turns of
-- "starting" and 100 of "pending" before the one that ends it.
pub wait_for_transfer_completion-Ended :
    (fuel : ℕ) (dev : ℕ → Mem) (mode : Opmode)
    → ((i : ℕ) → (rd32 (dev i) reg_mf_ready == status_ready) ≡ false)
    → 1600 < fuel
    → Ended 1600 (wait_for_transfer_completion fuel dev mode)
unfolding wait_for_transfer_completion
wait_for_transfer_completion-Ended fuel dev mode busy enough =
    Ended-later 1600 (0 + (1500 + 100)) (wait_loop fuel dev mode 0 1500 100)
      (wait_loop fuel dev mode 0 1500 100) refl (omega arith)
      (wait_loop-Ended fuel dev mode 0 1500 100 busy (omega (arith, enough)))

-- A device that keeps its mode and stays "ready" is waited for without end, and without a pause:
-- however many turns are made, the wait goes on.
pub wait_for_transfer_completion-ready :
    (fuel : ℕ) (dev : ℕ → Mem) (mode : Opmode)
    → ((i : ℕ) → (rd32 (dev i) reg_mf_ready == status_ready) ≡ true)
    → ((i : ℕ) → same_mode mode (get_opmode (dev i)) ≡ true)
    → wait_for_transfer_completion fuel dev mode ≡ none
unfolding wait_for_transfer_completion
wait_for_transfer_completion-ready fuel dev mode ready same =
    wait_loop-ready fuel dev mode 0 ready same
