-- ===== src/Serial/Stream/Write.antt =====
-- serial/mxlk/mxlk_core.c: writing to an interface queues the bytes for the device.
use pcie_host_driver.Prelude.{
  ℕ, zero, suc, ◌+◌, ◌-◌, ◌≤◌, min, ◌≡◌, ◌≢◌, refl, sym, ap, ◌∙◌, ◌⊎◌, inl, inr, Bool, true, Option,
  none, some, List, [], ◌∷◌, ◌++◌, append-nil, append_assoc, arith, length, take, drop, is_some,
  append-take, length-append, take-append-drop, List-cases,
}
use pcie_host_driver.Mmio.{Bytes}
use pcie_host_driver.Serial.Buffers.{
  BufDesc, BufList, no_interface, list_get, list_put, fresh, fresh_of, get_from, pool_alloc,
}
use pcie_host_driver.Serial.Buffers.Pool.{held}
use pcie_host_driver.Serial.Stream.{Traffic, Writer, write_loop, write_fuel, core_write}
use pcie_host_driver.Serial.Stream.Contents.{content, contents, Stops}
use pcie_host_driver.Serial.Stream.Filling.{
  AllUsable, HasRoom, AllFrom, filled, content-filled, pool_alloc-Allocated, WriteEnd, Wanted,
  Wanted-any, bumped, write_loop-none, write_loop-last, write_loop-more,
}

write_loop-WriteEnd :
    (fuel : ℕ) (copies : ℕ → Bool) (n id : ℕ) (pool : BufList) (t : Traffic) (hand : Option BufDesc)
    (src : Bytes)
    → ((n : ℕ) → copies n ≡ true)
    → 1 + (held hand + length pool.chain) ≤ fuel
    → Stops hand pool.chain
    → HasRoom hand
    → AllUsable pool.chain
    → Wanted hand src
    → WriteEnd id hand pool src (write_loop fuel copies n id pool t hand src)
write_loop-WriteEnd zero copies n id pool t hand src good enough stops room usable wanted =
    absurd (omega (arith, enough))
write_loop-WriteEnd (suc fuel) copies n id pool t none src good enough stops room usable wanted =
    record {
      chain = [];
      left = pool;
      traffic = t;
      rest = src;
      eq = write_loop-none fuel copies n id pool t src;
      kept = refl;
      whole = refl;
      from = tt;
      full = inr stops;
    }
write_loop-WriteEnd (suc fuel) copies n id pool t (some bd) [] good enough stops room usable
      wanted =
    absurd (wanted refl)
write_loop-WriteEnd (suc fuel) copies n id pool t (some bd) (b ∷ bs) good enough stops room usable
      wanted =
    let m = min bd.length (length (b ∷ bs)) in
    let rest = drop m (b ∷ bs) in
    let bd' = filled bd id (b ∷ bs) in
    let new = content-filled bd id (b ∷ bs) room.1 in
    elim (List-cases rest) [
      | inl e ↦ record {
        chain = bd' ∷ [];
        left = pool;
        traffic = bumped fuel copies n id pool t m;
        rest = [];
        eq = write_loop-last fuel copies n id pool t bd b bs (good n) e;
        kept =
            ap (λ c. (c ++ []) ++ []) new
            ∙ append-nil (take m (b ∷ bs) ++ [])
            ∙ ap (λ c. take m (b ∷ bs) ++ c) (sym e)
            ∙ take-append-drop m (b ∷ bs);
        whole = refl;
        from = (refl, tt);
        full = inl refl;
      }
      | inr (c, cs, e) ↦
          let next = (pool_alloc pool).0 in
          let pool' = (pool_alloc pool).1 in
          let taken = pool_alloc-Allocated pool usable in
          let end =
            write_loop-WriteEnd fuel copies (n + 1) id pool' (bumped fuel copies n id pool t m) next
              rest good (omega (arith, enough, taken.whole)) taken.stops taken.room taken.usable
              (Wanted-any next rest (λ z. absurd (cc (e, z)))) in
          record {
            chain = bd' ∷ end.chain;
            left = end.left;
            traffic = end.traffic;
            rest = end.rest;
            eq =
                write_loop-more fuel copies n id pool t bd b c bs cs end.chain end.left end.traffic
                  end.rest (good n) e end.eq;
            kept =
                append_assoc (content bd') (contents end.chain) end.rest
                ∙ ap (λ c. content bd' ++ c) end.kept
                ∙ ap (λ c. c ++ rest) new
                ∙ take-append-drop m (b ∷ bs);
            whole = omega (arith, end.whole, taken.whole);
            from = (refl, end.from);
            full = end.full;
          }
    ]

-- what a write has done
pub record Queued (copies : ℕ → Bool) (id : ℕ) (w : Writer) (src : Bytes) : Type 0 where
  pub writer : Writer
  pub started : Bool
  pub count : ℕ
  pub chain : List BufDesc
  pub eq : core_write copies id w src ≡ some (writer, started, count)
  pub queued : writer.write.chain ≡ w.write.chain ++ chain
  pub from : AllFrom id chain
  pub kept : contents chain ≡ take count src
  pub bounded : count ≤ length src
  pub full : (count ≡ length src) ⊎ (writer.tx_pool.chain ≡ [])
  pub whole : length chain + length writer.tx_pool.chain ≡ length w.tx_pool.chain

core_write-loop :
    (copies : ℕ → Bool) (id : ℕ) (w : Writer) (src : Bytes) (chain : List BufDesc) (left : BufList)
    (t : Traffic) (rest : Bytes)
    → write_loop
        (write_fuel w)
        copies
        0
        id
        (pool_alloc w.tx_pool).1
        w.tx_usr
        (pool_alloc w.tx_pool).0
        src
      ≡ some (chain, left, t, rest)
    → core_write copies id w src
      ≡ some (
        record { tx_pool = left; write = (list_put w.write chain).0; tx_usr = t },
        is_some (pool_alloc w.tx_pool).0,
        length src - length rest,
      )
unfolding core_write
core_write-loop copies id w src chain left t rest eq = rw (eq, core_write) refl

chain-list_put : (l : BufList) (bds : List BufDesc) → (list_put l bds).0.chain ≡ l.chain ++ bds
unfolding list_put
chain-list_put l [] = sym (append-nil l.chain)
chain-list_put l (bd ∷ bds) = refl

-- Writing some bytes when no copy fails and the pool's descriptors are usable: the descriptors that
-- are queued are the interface's and hold the bytes that the count says, in order; that is all of
-- them unless the pool is used up; and no descriptor is lost.
pub core_write-Queued :
    (copies : ℕ → Bool) (id : ℕ) (w : Writer) (src : Bytes)
    → ((n : ℕ) → copies n ≡ true)
    → AllUsable w.tx_pool.chain
    → src ≢ []
    → Queued copies id w src
unfolding write_fuel
core_write-Queued copies id w src good usable some_bytes =
    let taken = pool_alloc-Allocated w.tx_pool usable in
    let hand = (pool_alloc w.tx_pool).0 in
    let pool = (pool_alloc w.tx_pool).1 in
    let end =
      write_loop-WriteEnd (2 + length w.tx_pool.chain) copies 0 id pool w.tx_usr hand src good
        (omega (arith, taken.whole)) taken.stops taken.room taken.usable
        (Wanted-any hand src some_bytes) in
    let size = ap length (sym end.kept) ∙ length-append (contents end.chain) end.rest in
    record {
      writer = record {
        tx_pool = end.left;
        write = (list_put w.write end.chain).0;
        tx_usr = end.traffic;
      };
      started = is_some hand;
      count = length src - length end.rest;
      chain = end.chain;
      eq = core_write-loop copies id w src end.chain end.left end.traffic end.rest end.eq;
      queued = chain-list_put w.write end.chain;
      from = end.from;
      kept =
          (append-take (length src - length end.rest) (contents end.chain) end.rest src end.kept
            (omega (arith, size))).0;
      bounded = omega arith;
      full = elim end.full [ inl e ↦ inl (omega (arith, ap length e)) | inr e ↦ inr e ];
      whole = omega (arith, end.whole, taken.whole);
    }

-- A write of no bytes, while the pool has a descriptor, returns 0 and yet queues that descriptor, as
-- full as it can be with whatever its memory holds, and with no interface.
pub core_write-stale :
    (copies : ℕ → Bool) (id : ℕ) (w : Writer) (bd : BufDesc) (bds : List BufDesc)
    → w.tx_pool.chain ≡ bd ∷ bds
    → (w' : Writer) × (core_write copies id w [] ≡ some (w', true, 0))
      × (w'.write.chain ≡ w.write.chain ++ (fresh bd ∷ []))
      × ((fresh bd).length ≡ bd.true_len)
      × ((fresh bd).interface ≡ no_interface)
unfolding write_fuel pool_alloc fresh_of list_get get_from write_loop fresh
core_write-stale copies id w bd bds e =
    let pool = (pool_alloc w.tx_pool).1 in
    let hand = ap (λ c. fresh_of (get_from w.tx_pool c).0) e in
    (
      record { tx_pool = pool; write = (list_put w.write (fresh bd ∷ [])).0; tx_usr = w.tx_usr },
      core_write-loop copies id w [] (fresh bd ∷ []) pool w.tx_usr [] (
            ap (λ n. write_loop n copies 0 id pool w.tx_usr (pool_alloc w.tx_pool).0 [])
              {y = suc (suc (length w.tx_pool.chain))} (omega arith)
            ∙ ap
                (λ h.
                  write_loop (suc (suc (length w.tx_pool.chain))) copies 0 id pool w.tx_usr h [])
                hand)
          ∙ ap
              (λ s. some (
                record {
                  tx_pool = pool;
                  write = (list_put w.write (fresh bd ∷ [])).0;
                  tx_usr = w.tx_usr;
                },
                is_some s,
                0,
              ))
              hand,
      chain-list_put w.write (fresh bd ∷ []),
      refl,
      refl,
    )
