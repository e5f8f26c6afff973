-- ===== src/Serial/Stream/Turns.antt =====
-- serial/mxlk/mxlk_core.c: one turn of the loop of `mxlk_core_read`.
use pcie_host_driver.Prelude.{
  ℕ, suc, ◌+◌, ◌-◌, min, ◌≡◌, refl, sym, ap, ◌∙◌, ◌⊎◌, inl, inr, Bool, true, false, Option, none,
  some, [], ◌++◌, append-nil, append_assoc, arith, ◌==◌, length, take, drop, length-append,
}
use pcie_host_driver.Mmio.{Bytes}
use pcie_host_driver.Serial.Buffers.{BufDesc, size_add, list_get, pool_free}
use pcie_host_driver.Serial.Buffers.Pool.{held}
use pcie_host_driver.Serial.Stream.{Reader, read_loop}
use pcie_host_driver.Serial.Stream.Contents.{content, contents, stream, pending, owned}

-- How the loop ends that starts with `bd` in hand: `got` are the bytes it copies.
pub record ReadEnd (copies : ℕ → Bool) (r : Reader) (bd : Option BufDesc) (remaining : ℕ)
    (out : Bytes) (o : Option (Reader × ℕ × Bytes)) : Type 0 where
  pub reader : Reader
  pub rest : ℕ
  pub got : Bytes
  pub eq : o ≡ some (reader, rest, out ++ got)
  pub kept : got ++ pending reader ≡ stream bd r.read.chain
  pub count : length got + rest ≡ remaining
  pub whole : owned reader ≡ length r.rx_pool.chain + (held bd + length r.read.chain)
  pub full : ((n : ℕ) → copies n ≡ true) → (rest ≡ 0) ⊎ (pending reader ≡ [])

-- the descriptor in hand and the counts after a turn that copies `m` bytes
abbrev pub used : BufDesc → ℕ → BufDesc
used bd m = record bd { data_at = bd.data_at + m; length = bd.length - m }

abbrev counted_bytes : Reader → ℕ → ℕ
counted_bytes r m = size_add r.rx_usr.bytes m

-- the state after a turn that ends its descriptor, and after one that does not
abbrev pub after_done : Reader → BufDesc → ℕ → Reader
after_done r bd m = record r {
  rx_pool = pool_free r.rx_pool (some (used bd m));
  read = (list_get r.read).1;
  rx_usr = record { pkts = size_add r.rx_usr.pkts 1; bytes = counted_bytes r m };
}

abbrev pub after_part : Reader → ℕ → Reader
after_part r m = record r { rx_usr = record r.rx_usr { bytes = counted_bytes r m } }

abbrev pub copied : BufDesc → ℕ → Bytes
copied bd m = take m (drop bd.data_at bd.bytes)

pub read_loop-none :
    (fuel : ℕ) (copies : ℕ → Bool) (n : ℕ) (r : Reader) (remaining : ℕ) (out : Bytes)
    → read_loop (suc fuel) copies n r none remaining out
      ≡ some (record r { partial_read = none }, remaining, out)
unfolding read_loop
read_loop-none fuel copies n r remaining out = refl

pub read_loop-zero :
    (fuel : ℕ) (copies : ℕ → Bool) (n : ℕ) (r : Reader) (bd : BufDesc) (out : Bytes)
    → read_loop (suc fuel) copies n r (some bd) 0 out
      ≡ some (record r { partial_read = some bd }, 0, out)
unfolding read_loop
read_loop-zero fuel copies n r bd out = refl

pub read_loop-fault :
    (fuel : ℕ) (copies : ℕ → Bool) (n : ℕ) (r : Reader) (bd : BufDesc) (k : ℕ) (out : Bytes)
    → copies n ≡ false
    → read_loop (suc fuel) copies n r (some bd) (suc k) out
      ≡ some (record r { partial_read = some bd }, suc k, out)
unfolding read_loop
read_loop-fault fuel copies n r bd k out c = rw c refl

pub read_loop-done :
    (fuel : ℕ) (copies : ℕ → Bool) (n : ℕ) (r : Reader) (bd : BufDesc) (k : ℕ) (out : Bytes)
    → copies n ≡ true
    → let m = min (suc k) bd.length in
      ((bd.length - m) == 0) ≡ true
      → read_loop (suc fuel) copies n r (some bd) (suc k) out
        ≡ read_loop fuel copies
            (n + 1)
            (after_done r bd m)
            (list_get r.read).0
            (suc k - m)
            (out ++ copied bd m)
unfolding read_loop
read_loop-done fuel copies n r bd k out c z = rw (c, z) refl

pub read_loop-part :
    (fuel : ℕ) (copies : ℕ → Bool) (n : ℕ) (r : Reader) (bd : BufDesc) (k : ℕ) (out : Bytes)
    → copies n ≡ true
    → let m = min (suc k) bd.length in
      ((bd.length - m) == 0) ≡ false
      → read_loop (suc fuel) copies n r (some bd) (suc k) out
        ≡ read_loop fuel copies
            (n + 1)
            (after_part r m)
            (some (used bd m))
            (suc k - m)
            (out ++ copied bd m)
unfolding read_loop
read_loop-part fuel copies n r bd k out c z = rw (c, z) refl

-- The three ways to stop.
pub end-none :
    (copies : ℕ → Bool) (r : Reader) (remaining : ℕ) (out : Bytes) (o : Option (Reader × ℕ × Bytes))
    → r.read.chain ≡ []
    → o ≡ some (record r { partial_read = none }, remaining, out)
    → ReadEnd copies r none remaining out o
end-none copies r remaining out o empty eq = record {
  reader = record r { partial_read = none };
  rest = remaining;
  got = [];
  eq = eq ∙ ap (λ b. some (record r { partial_read = none }, remaining, b)) (sym (append-nil out));
  kept = refl;
  count = omega arith;
  whole = refl;
  full = λ good. inr (ap contents empty);
}

pub end-some :
    (copies : ℕ → Bool) (r : Reader) (bd : BufDesc) (remaining : ℕ) (out : Bytes)
    (o : Option (Reader × ℕ × Bytes))
    → (((n : ℕ) → copies n ≡ true) → remaining ≡ 0)
    → o ≡ some (record r { partial_read = some bd }, remaining, out)
    → ReadEnd copies r (some bd) remaining out o
end-some copies r bd remaining out o stop eq = record {
  reader = record r { partial_read = some bd };
  rest = remaining;
  got = [];
  eq =
      eq
      ∙ ap (λ b. some (record r { partial_read = some bd }, remaining, b)) (sym (append-nil out));
  kept = refl;
  count = omega arith;
  whole = refl;
  full = λ good. inl (stop good);
}

-- One turn before the turns that are known.
pub end-turn :
    (copies : ℕ → Bool) (r r' : Reader) (bd : BufDesc) (next : Option BufDesc) (remaining left : ℕ)
    (out new : Bytes) (o o' : Option (Reader × ℕ × Bytes))
    → o ≡ o'
    → new ++ stream next r'.read.chain ≡ content bd ++ contents r.read.chain
    → length new + left ≡ remaining
    → length r'.rx_pool.chain + (held next + length r'.read.chain)
      ≡ length r.rx_pool.chain + (1 + length r.read.chain)
    → ReadEnd copies r' next left (out ++ new) o'
    → ReadEnd copies r (some bd) remaining out o
end-turn copies r r' bd next remaining left out new o o' step kept count whole e = record {
  reader = e.reader;
  rest = e.rest;
  got = new ++ e.got;
  eq = step ∙ e.eq ∙ ap (λ b. some (e.reader, e.rest, b)) (append_assoc out new e.got);
  kept = append_assoc new e.got (pending e.reader) ∙ ap (λ b. new ++ b) e.kept ∙ kept;
  count = omega (arith, length-append new e.got, e.count, count);
  whole = e.whole ∙ whole;
  full = e.full;
}
