-- ===== src/Common/Boot/Chunks.antt =====
-- common/mx_boot.c: the chunks of an image that is loaded.
use pcie_host_driver.Prelude.{
  ℕ, zero, suc, ◌+◌, ◌<◌, min, ◌≡◌, refl, ap, ◌∙◌, inl, inr, Bool, true, false, ◌==◌, Option, none,
  some, List, [], ◌∷◌, arith, Bool-cases, length, take, drop, length-drop,
}
use pcie_host_driver.Mmio.{Mem, Bytes, rd32}
use pcie_host_driver.Common.Boot.{
  reg_mf_ready, status_ready, Transferred, boot_image_transfer, max_cont_buffer, Chunk, is_nil,
  buffered, Sent, sent_before, load_chunks,
}
use pcie_host_driver.Common.Boot.Transfers.{
  Loaded, chunk_size, Leaves, Loaded-stop, Loaded-failed, Loaded-next, boot_image_transfer-ends,
}

module _ (fuel polls : ℕ) (env : ℕ → Chunk) (user : Bool) (n : ℕ) (mmio : Mem) (b : ℕ)
    (bs : Bytes) where
  abbrev size_now : ℕ
  size_now = min (length (b ∷ bs)) max_cont_buffer

  abbrev rest_now : Bytes
  rest_now = drop size_now (b ∷ bs)

  abbrev sent_now : Transferred → Sent
  sent_now e = record {
    image = buffered user (env n).garbled (take size_now (b ∷ bs));
    before = mmio;
    outcome = e;
  }

  load_chunks-no_cache :
      (env n).cache_ok ≡ false
      → load_chunks (suc fuel) polls env user n mmio (b ∷ bs) ≡ some (mmio, [], false)
  unfolding load_chunks
  load_chunks-no_cache c = rw (c, load_chunks) refl

  load_chunks-no_image :
      (env n).cache_ok ≡ true
      → (env n).image_ok ≡ false
      → load_chunks (suc fuel) polls env user n mmio (b ∷ bs) ≡ some (mmio, [], false)
  unfolding load_chunks
  load_chunks-no_image c i = rw (c, i, load_chunks) refl

  load_chunks-failed :
      (e : Transferred)
      → (env n).cache_ok ≡ true
      → (env n).image_ok ≡ true
      → boot_image_transfer polls (env n).transfer mmio size_now (is_nil rest_now) ≡ some e
      → e.ok ≡ false
      → load_chunks (suc fuel) polls env user n mmio (b ∷ bs)
        ≡ some (e.mmio, sent_now e ∷ [], false)
  unfolding load_chunks
  load_chunks-failed e c i eq bad = rw (c, i) (rw (eq, load_chunks) (rw bad refl))

  load_chunks-next :
      (e : Transferred)
      → (env n).cache_ok ≡ true
      → (env n).image_ok ≡ true
      → boot_image_transfer polls (env n).transfer mmio size_now (is_nil rest_now) ≡ some e
      → e.ok ≡ true
      → load_chunks (suc fuel) polls env user n mmio (b ∷ bs)
        ≡ sent_before (sent_now e) (load_chunks fuel polls env user (n + 1) e.mmio rest_now)
  unfolding load_chunks
  load_chunks-next e c i eq good = rw (c, i) (rw (eq, load_chunks) (rw good refl))

  load_chunks-end : load_chunks (suc fuel) polls env user n mmio [] ≡ some (mmio, [], true)
  unfolding load_chunks
  load_chunks-end = refl

buffered-whole :
    (user : Bool) (garbled : Option Bytes) (c : Bytes)
    → garbled ≡ none
    → buffered user garbled c ≡ c
unfolding buffered
buffered-whole false garbled c e = refl
buffered-whole true garbled c e = rw e refl

Loaded-end :
    (mmio : Mem) (o : Option (Mem × List Sent × Bool))
    → o ≡ some (mmio, [], true)
    → Loaded mmio [] o
Loaded-end mmio o eq = record {
  mmio = mmio;
  log = [];
  ok = true;
  left = [];
  eq = eq;
  kept = refl;
  short = tt;
  steps = refl;
  done = inr refl;
}

-- What a chunk's transfer comes to.
load_chunks-turn :
    (fuel polls : ℕ) (env : ℕ → Chunk) (user : Bool) (n : ℕ) (mmio : Mem) (b : ℕ) (bs : Bytes)
    (e : Transferred)
    → (env n).garbled ≡ none
    → boot_image_transfer polls
        (env n).transfer
        mmio
        (chunk_size (b ∷ bs))
        (is_nil (drop (chunk_size (b ∷ bs)) (b ∷ bs)))
      ≡ some e
    → Leaves (drop (chunk_size (b ∷ bs)) (b ∷ bs)) mmio e
    → Loaded e.mmio
        (drop (chunk_size (b ∷ bs)) (b ∷ bs))
        (load_chunks fuel polls env user (n + 1) e.mmio (drop (chunk_size (b ∷ bs)) (b ∷ bs)))
    → Loaded mmio (b ∷ bs) (load_chunks (suc fuel) polls env user n mmio (b ∷ bs))
load_chunks-turn fuel polls env user n mmio b bs e clean sent leaves next =
    let here = load_chunks (suc fuel) polls env user n mmio (b ∷ bs) in
    let rest = drop (chunk_size (b ∷ bs)) (b ∷ bs) in
    let after = load_chunks fuel polls env user (n + 1) e.mmio rest in
    let whole = buffered-whole user (env n).garbled (take (chunk_size (b ∷ bs)) (b ∷ bs)) clean in
    let log_of : Bytes → Sent = λ x. record { image = x; before = mmio; outcome = e } in
    elim (Bool-cases (env n).cache_ok) [
      | inr c ↦
          Loaded-stop (b ∷ bs) mmio here (load_chunks-no_cache fuel polls env user n mmio b bs c)
      | inl c ↦ elim (Bool-cases (env n).image_ok) [
        | inr i ↦
            Loaded-stop (b ∷ bs) mmio here
              (load_chunks-no_image fuel polls env user n mmio b bs c i)
        | inl i ↦ elim (Bool-cases e.ok) [
          | inr failed ↦
              Loaded-failed (b ∷ bs) mmio e here
                (load_chunks-failed fuel polls env user n mmio b bs e c i sent failed
                  ∙ ap (λ x. some (e.mmio, log_of x ∷ [], false)) whole)
                leaves
          | inl good ↦
              Loaded-next (b ∷ bs) mmio e here after
                (load_chunks-next fuel polls env user n mmio b bs e c i sent good
                  ∙ ap (λ x. sent_before (log_of x) after) whole)
                leaves next
        ]
      ]
    ]

-- Loading an image whose copies from the user do not fail, on a device whose status is never "ready"
-- during a transfer: it ends, whatever else fails. What is transferred is the front of the image, in
-- order, in buffers of at most 4 MB; each starts from where the one before has left the
-- device, and MF_STATUS_BOOT is written behind the one that completes the image, on a device in the
-- loader's mode, and behind no other; nothing is left unless the load reports an error.
pub load_chunks-Loaded :
    (fuel polls : ℕ) (env : ℕ → Chunk) (user : Bool) (n : ℕ) (mmio : Mem) (src : Bytes)
    → ((k : ℕ) → (env k).garbled ≡ none)
    → ((k : ℕ) (m : Mem) (i : ℕ)
        → (rd32 ((env k).transfer.polls m i) reg_mf_ready == status_ready) ≡ false)
    → 1600 < polls
    → length src < fuel
    → Loaded mmio src (load_chunks fuel polls env user n mmio src)
load_chunks-Loaded zero polls env user n mmio src clean busy enough long =
    absurd (omega (arith, long))
load_chunks-Loaded (suc fuel) polls env user n mmio [] clean busy enough long =
    Loaded-end mmio (load_chunks (suc fuel) polls env user n mmio [])
      (load_chunks-end fuel polls env user n mmio 0 [])
load_chunks-Loaded (suc fuel) polls env user n mmio (b ∷ bs) clean busy enough long =
    let size = chunk_size (b ∷ bs) in
    let rest = drop size (b ∷ bs) in
    let (e, sent, leaves) =
      boot_image_transfer-ends polls (env n).transfer mmio size (is_nil rest) (busy n) enough in
    load_chunks-turn fuel polls env user n mmio b bs e (clean n) sent leaves (
      load_chunks-Loaded fuel polls env user (n + 1) e.mmio rest clean busy enough
        (omega (arith, length-drop size (b ∷ bs), long)))
