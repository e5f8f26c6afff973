-- ===== src/Common/Boot/Stages.antt =====
-- common/mx_boot.c: loading an image, with the second-stage loader before a large one.
use pcie_host_driver.Prelude.{
  ℕ, ◌≤◌, ◌<◌, ◌≡◌, refl, sym, ap, subst, ◌∙◌, ◌⊎◌, inl, inr, Bool, true, false, Bool-cases, Option,
  none, some, List, [], ◌==◌, arith, dec_lt, lt→ltb, le→ltb-false, length,
}
use pcie_host_driver.Mmio.{Mem, Bytes, rd32}
use pcie_host_driver.Common.Opmode.{
  Opmode, unknown, boot, loader, app_vpual, app_vpulink, get_opmode, same_mode,
}
use pcie_host_driver.Common.Boot.{
  Chunk, Sent, max_cont_buffer, reg_mf_ready, status_ready, load_chunks, load_image,
}
use pcie_host_driver.Common.Boot.Transfers.{Loaded}
use pcie_host_driver.Common.Boot.Chunks.{load_chunks-Loaded}

-- The device has got the whole second-stage loader, has `start` in its memory and shows the loader's
-- mode.
abbrev pub IsStaged : Option (Mem × List Sent × Bool) → Mem → Type 0
IsStaged o start = (log : List Sent) × (o ≡ some (start, log, true)) × (get_opmode start ≡ loader)

same_mode-loader : (mode : Opmode) → same_mode mode loader ≡ true → mode ≡ loader
same_mode-loader loader e = refl
same_mode-loader boot e = absurd (cc e)
same_mode-loader unknown e = absurd (cc e)
same_mode-loader app_vpual e = absurd (cc e)
same_mode-loader app_vpulink e = absurd (cc e)

module _ (fuel polls : ℕ) (env bl_env : ℕ → Chunk) (bl : Bytes) (user : Bool) (mmio : Mem)
    (src : Bytes) where
  abbrev outcome : Option (Mem × List Sent × Bool)
  outcome = load_image fuel polls env bl_env bl user mmio src

  abbrev first_stage : Option (Mem × List Sent × Bool)
  first_stage = load_chunks fuel polls bl_env false 0 mmio bl

  load_image-direct :
      length src ≤ max_cont_buffer → outcome ≡ load_chunks fuel polls env user 0 mmio src
  unfolding load_image
  load_image-direct le = rw (le→ltb-false max_cont_buffer (length src) le) refl

  load_image-unstaged :
      (m : Mem) (log : List Sent)
      → max_cont_buffer < length src
      → first_stage ≡ some (m, log, false)
      → outcome ≡ some (m, [], false)
  unfolding load_image
  load_image-unstaged m log large e =
      rw (lt→ltb max_cont_buffer (length src) large) (rw (e, load_image) refl)

  load_image-astray :
      (m : Mem) (log : List Sent)
      → max_cont_buffer < length src
      → first_stage ≡ some (m, log, true)
      → same_mode (get_opmode m) loader ≡ false
      → outcome ≡ some (m, [], false)
  unfolding load_image
  load_image-astray m log large e mode =
      rw (lt→ltb max_cont_buffer (length src) large) (rw (e, load_image) (rw mode refl))

  load_image-staged :
      (m : Mem) (log : List Sent)
      → max_cont_buffer < length src
      → first_stage ≡ some (m, log, true)
      → same_mode (get_opmode m) loader ≡ true
      → outcome ≡ load_chunks fuel polls env user 0 m src
  unfolding load_image
  load_image-staged m log large e mode =
      rw (lt→ltb max_cont_buffer (length src) large) (rw (e, load_image) (rw mode refl))

-- What loading an image comes to: as its chunks do from the device's memory `mmio`, or, for a large
-- image, from where the second-stage loader has left it; none of a large image is transferred before
-- that loader runs.
pub record ImageLoaded (mmio : Mem) (staging : Option (Mem × List Sent × Bool)) (src : Bytes)
    (o : Option (Mem × List Sent × Bool)) : Type 0 where
  pub start : Mem
  pub image : Loaded start src o
  pub staged :
      ((length src ≤ max_cont_buffer) × (start ≡ mmio))
      ⊎ ((image.log ≡ []) ⊎ IsStaged staging start)

-- The image is not touched.
untouched :
    (mmio : Mem) (staging : Option (Mem × List Sent × Bool)) (src : Bytes) (m : Mem)
    (o : Option (Mem × List Sent × Bool))
    → o ≡ some (m, [], false)
    → ImageLoaded mmio staging src o
untouched mmio staging src m o eq = record {
  start = m;
  image = record {
    mmio = m;
    log = [];
    ok = false;
    left = src;
    eq = eq;
    kept = refl;
    short = tt;
    steps = refl;
    done = inl refl;
  };
  staged = inr (inl refl);
}

-- Loading an image, when no copy from the user fails and the device's status is never "ready" during a
-- transfer, ends. What is transferred of the image is its front, in order, in buffers of at most 4 MB;
-- MF_STATUS_BOOT is written behind the one that completes the image, on a device in the loader's mode,
-- and behind no other; nothing is left unless an error is reported; and
-- nothing of an image of more than 4 MB is transferred unless the whole second-stage loader has been,
-- and the device then shows the loader's mode.
pub load_image-Loaded :
    (fuel polls : ℕ) (env bl_env : ℕ → Chunk) (bl : Bytes) (user : Bool) (mmio : Mem) (src : Bytes)
    → ((k : ℕ) → (env k).garbled ≡ none)
    → ((k : ℕ) → (bl_env k).garbled ≡ none)
    → ((k : ℕ) (m : Mem) (i : ℕ)
        → (rd32 ((env k).transfer.polls m i) reg_mf_ready == status_ready) ≡ false)
    → ((k : ℕ) (m : Mem) (i : ℕ)
        → (rd32 ((bl_env k).transfer.polls m i) reg_mf_ready == status_ready) ≡ false)
    → 1600 < polls
    → length src < fuel
    → length bl < fuel
    → ImageLoaded mmio
        (load_chunks fuel polls bl_env false 0 mmio bl)
        src
        (load_image fuel polls env bl_env bl user mmio src)
load_image-Loaded fuel polls env bl_env bl user mmio src clean bl_clean busy bl_busy enough long
      bl_long =
    let o = load_image fuel polls env bl_env bl user mmio src in
    let staging = load_chunks fuel polls bl_env false 0 mmio bl in
    let chunks =
      λ (m : Mem). load_chunks-Loaded fuel polls env user 0 m src clean busy enough long in
    elim (dec_lt max_cont_buffer (length src)) [
      | no small ↦
          let le : length src ≤ max_cont_buffer = omega (arith, small) in
          record {
            start = mmio;
            image =
                subst (Loaded mmio src)
                  (sym (load_image-direct fuel polls env bl_env bl user mmio src le)) (chunks mmio);
            staged = inl (le, refl);
          }
      | yes large ↦
          let first =
            load_chunks-Loaded fuel polls bl_env false 0 mmio bl bl_clean bl_busy enough bl_long in
          elim (Bool-cases first.ok) [
            | inr failed ↦ untouched mmio staging src first.mmio o (
                load_image-unstaged fuel polls env bl_env bl user mmio src first.mmio first.log
                  large (first.eq ∙ ap (λ b. some (first.mmio, first.log, b)) failed))
            | inl good ↦
                let whole = first.eq ∙ ap (λ b. some (first.mmio, first.log, b)) good in
                elim (Bool-cases (same_mode (get_opmode first.mmio) loader)) [
                  | inr astray ↦ untouched mmio staging src first.mmio o (
                      load_image-astray fuel polls env bl_env bl user mmio src first.mmio first.log
                        large whole astray)
                  | inl mode ↦ record {
                    start = first.mmio;
                    image =
                        subst (Loaded first.mmio src)
                          (sym (
                            load_image-staged fuel polls env bl_env bl user mmio src first.mmio
                              first.log large whole mode))
                          (chunks first.mmio);
                    staged =
                        inr (inr (first.log, whole, same_mode-loader (get_opmode first.mmio) mode));
                  }
                ]
          ]
    ]
