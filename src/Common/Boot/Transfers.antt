-- ===== src/Common/Boot/Transfers.antt =====
-- common/mx_boot.c: the transfers that loading an image is made of.
use pcie_host_driver.Prelude.{
  ℕ, ◌≤◌, ◌<◌, min, ◌≡◌, refl, sym, ap, ◌∙◌, ◌⊎◌, inl, inr, Bool, false, not, ◌&&◌, ◌==◌, Option,
  none, some, List, [], ◌∷◌, ◌++◌, append-nil, append_assoc, arith, Bool-cases, Option-cases,
  length, take, drop, length-take, take-append-drop, if◌then◌else◌,
}
use pcie_host_driver.Mmio.{Mem, Bytes, rd32, wr32}
use pcie_host_driver.Common.Opmode.{loader, same_mode, get_opmode}
use pcie_host_driver.Common.Boot.Wait.{wait_for_transfer_completion-Ended}
use pcie_host_driver.Common.Boot.{
  reg_mf_ready, status_ready, status_dma_done, status_boot, handed_over, is_complete, Transfer,
  Transferred, boot_image_transfer, max_cont_buffer, is_nil, Sent, sent_before,
}

-- the images of the transfers, one after another
abbrev pub joined : List Sent → Bytes
joined [] = []
joined (s ∷ log) = s.image ++ joined log

-- No image is longer than a buffer.
abbrev pub AllShort : List Sent → Type 0
AllShort [] = Unit
AllShort (s ∷ log) = (length s.image ≤ max_cont_buffer) × AllShort log

-- The device's memory behind a transfer that starts from `m`: as it was, where the transfer is refused;
-- else as the device has left it, with MF_STATUS_BOOT written behind that for the last buffer of an
-- image, if the device was in the loader's mode, and for no other.
abbrev pub left_by : Bool → Mem → Option Mem → Mem
left_by last m none = m
left_by last m (some w) =
    if last && same_mode (get_opmode m) loader then wr32 w reg_mf_ready status_boot else w

-- The transfers lead from memory `m` to `m'`, each from where the one before it has left the device.
abbrev pub Steps : Mem → List Sent → Bytes → Mem → Type 0
Steps m [] left m' = m' ≡ m
Steps m (s ∷ log) left m' =
    (s.before ≡ m)
    × (s.outcome.mmio ≡ left_by (is_nil (joined log ++ left)) m s.outcome.waited)
    × Steps s.outcome.mmio log left m'

-- How the loop ends on the image `src`, of which `left` is not transferred, from memory `start`.
pub record Loaded (start : Mem) (src : Bytes) (o : Option (Mem × List Sent × Bool)) : Type 0 where
  pub mmio : Mem
  pub log : List Sent
  pub ok : Bool
  pub left : Bytes
  pub eq : o ≡ some (mmio, log, ok)
  pub kept : joined log ++ left ≡ src
  pub short : AllShort log
  pub steps : Steps start log left mmio
  pub done : (ok ≡ false) ⊎ (left ≡ [])

-- the front of `src` that one buffer takes
abbrev pub chunk_size : Bytes → ℕ
chunk_size src = min (length src) max_cont_buffer

pub Loaded-stop :
    (src : Bytes) (mmio : Mem) (o : Option (Mem × List Sent × Bool))
    → o ≡ some (mmio, [], false)
    → Loaded mmio src o
Loaded-stop src mmio o eq = record {
  mmio = mmio;
  log = [];
  ok = false;
  left = src;
  eq = eq;
  kept = refl;
  short = tt;
  steps = refl;
  done = inl refl;
}

-- the front of `src`, transferred from `m`
abbrev pub sent_front : Bytes → Mem → Transferred → Sent
sent_front src m e = record { image = take (chunk_size src) src; before = m; outcome = e }

-- The transfer from `m` leaves the device's memory as it should.
abbrev pub Leaves : Bytes → Mem → Transferred → Type 0
Leaves rest m e = e.mmio ≡ left_by (is_nil rest) m e.waited

pub Loaded-failed :
    (src : Bytes) (mmio : Mem) (e : Transferred) (o : Option (Mem × List Sent × Bool))
    → o ≡ some (e.mmio, sent_front src mmio e ∷ [], false)
    → Leaves (drop (chunk_size src) src) mmio e
    → Loaded mmio src o
Loaded-failed src mmio e o eq leaves = record {
  mmio = e.mmio;
  log = sent_front src mmio e ∷ [];
  ok = false;
  left = drop (chunk_size src) src;
  eq = eq;
  kept =
      ap (λ b. b ++ drop (chunk_size src) src) (append-nil (take (chunk_size src) src))
      ∙ take-append-drop (chunk_size src) src;
  short = (omega (arith, length-take (chunk_size src) src), tt);
  steps = (refl, leaves, refl);
  done = inl refl;
}

pub Loaded-next :
    (src : Bytes) (mmio : Mem) (e : Transferred) (o next : Option (Mem × List Sent × Bool))
    → o ≡ sent_before (sent_front src mmio e) next
    → Leaves (drop (chunk_size src) src) mmio e
    → Loaded e.mmio (drop (chunk_size src) src) next
    → Loaded mmio src o
Loaded-next src mmio e o next eq leaves l =
    let first = take (chunk_size src) src in
    record {
      mmio = l.mmio;
      log = sent_front src mmio e ∷ l.log;
      ok = l.ok;
      left = l.left;
      eq = eq ∙ ap (sent_before (sent_front src mmio e)) l.eq;
      kept =
          append_assoc first (joined l.log) l.left
          ∙ ap (λ b. first ++ b) l.kept
          ∙ take-append-drop (chunk_size src) src;
      short = (omega (arith, length-take (chunk_size src) src), l.short);
      steps = (refl, leaves ∙ ap (λ b. left_by (is_nil b) mmio e.waited) (sym l.kept), l.steps);
      done = l.done;
    }

abbrev refused : Mem → Transferred
refused mmio = record { waited = none; mmio = mmio; ok = false }

-- A device whose status is never "ready" during a transfer lets the transfer end; it is then booted
-- as it should be.
pub boot_image_transfer-ends :
    (polls : ℕ) (t : Transfer) (mmio : Mem) (len : ℕ) (boot_now : Bool)
    → ((m : Mem) (i : ℕ) → (rd32 (t.polls m i) reg_mf_ready == status_ready) ≡ false)
    → 1600 < polls
    → (e : Transferred) × (boot_image_transfer polls t mmio len boot_now ≡ some e)
      × (e.mmio ≡ left_by boot_now mmio e.waited)
unfolding boot_image_transfer
boot_image_transfer-ends polls t mmio len boot_now busy enough =
    let ready = rd32 mmio reg_mf_ready in
    elim (Bool-cases (not (ready == status_ready) && not (ready == status_dma_done))) [
      | inl not_now ↦ (refused mmio, rw (not_now, boot_image_transfer) refl, refl)
      | inr fine ↦ elim (Option-cases t.start) [
        | inl unmapped ↦ (refused mmio, rw (fine, unmapped, boot_image_transfer) refl, refl)
        | inr (start, mapped) ↦
            let dev = t.polls (handed_over mmio start len) in
            let e =
              wait_for_transfer_completion-Ended polls dev (get_opmode mmio)
                (busy (handed_over mmio start len)) enough in
            let boots = boot_now && same_mode (get_opmode mmio) loader in
            (
              record {
                waited = some (dev e.turn);
                mmio = if boots then wr32 (dev e.turn) reg_mf_ready status_boot else dev e.turn;
                ok = is_complete e.status;
              },
              rw (fine, mapped, boot_image_transfer) (rw (e.eq, boot_image_transfer) refl),
              refl,
            )
      ]
    ]
