-- ===== src/Tests/Common.antt =====
-- Loading an image, and the set-up of the PCI function and of the processor.
use pcie_host_driver.Prelude.{
  ◌≡◌, ◌↔◌, refl, true, false, none, some, [], ◌∷◌, arith, ◌==◌, if◌then◌else◌,
}
use pcie_host_driver.Mmio.{Mem, rd32, rd_buf}
use pcie_host_driver.Common.Opmode.{
  boot, loader, app_vpual, app_vpulink, unknown, get_opmode, boot_str, load_str, vpual_str,
  vpulink_str,
}
use pcie_host_driver.Common.Opmode.Magic.{Shows, get_opmode_iff}
use pcie_host_driver.Common.Boot.{
  reg_mf_ready, status_ready, wait_for_transfer_completion, Chunk, load_chunks, load_image,
}
use pcie_host_driver.Common.Boot.Wait.{wait_for_transfer_completion-ready}
use pcie_host_driver.Common.Boot.Stages.{ImageLoaded, load_image-Loaded}

-- a device in an unknown mode whose status is "DMA done"
abbrev pub done_memory : Mem
done_memory a =
    if a == 16
    then 0xDD
    else if a == 17
    then 0xDD
    else if a == 18
    then 0xDD
    else if a == 19
    then 0xDD
    else 0

done_memory-status : (rd32 done_memory reg_mf_ready == status_ready) ≡ false
unfolding rd32 rd_buf
done_memory-status = refl

ready_example : wait_for_transfer_completion 5 (λ i a. 0) unknown ≡ none
unfolding rd32 rd_buf get_opmode
ready_example = wait_for_transfer_completion-ready 5 (λ i a. 0) unknown (λ i. refl) (λ i. refl)

abbrev pub chunk : Chunk
chunk = record {
  cache_ok = true;
  image_ok = true;
  garbled = none;
  transfer = record { start = some 4096; polls = λ m i. done_memory };
}

load_example :
    ImageLoaded done_memory
      (load_chunks 4 1601 (λ n. chunk) false 0 done_memory (7 ∷ []))
      (1 ∷ 2 ∷ 3 ∷ [])
      (load_image 4 1601 (λ n. chunk) (λ n. chunk) (7 ∷ []) true done_memory (1 ∷ 2 ∷ 3 ∷ []))
load_example =
    load_image-Loaded 4 1601 (λ n. chunk) (λ n. chunk) (7 ∷ []) true done_memory (1 ∷ 2 ∷ 3 ∷ [])
      (λ k. refl) (λ k. refl) (λ k m i. done_memory-status) (λ k m i. done_memory-status)
      (omega arith) (omega arith) (omega arith)

mode_example :
    ((get_opmode done_memory ≡ boot) ↔ Shows done_memory boot_str)
    × ((get_opmode done_memory ≡ loader) ↔ Shows done_memory load_str)
    × ((get_opmode done_memory ≡ app_vpual) ↔ Shows done_memory vpual_str)
    × ((get_opmode done_memory ≡ app_vpulink) ↔ Shows done_memory vpulink_str)
mode_example = get_opmode_iff done_memory
