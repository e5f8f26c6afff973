-- ===== src/Serial/Stream/Read.antt =====
-- serial/mxlk/mxlk_core.c: reading an interface is reading a stream of bytes.
use pcie_host_driver.Prelude.{
  ℕ, zero, suc, ◌+◌, ◌-◌, ◌≤◌, min, ◌≡◌, ◌≢◌, refl, sym, ap, subst, ◌∙◌, inl, inr, Bool, true,
  Option, none, some, [], ◌++◌, append_assoc, arith, ◌==◌, ==_iff, Bool-cases, length, take, drop,
  length-append, append-take,
}
use pcie_host_driver.Mmio.{Bytes}
use pcie_host_driver.Serial.Buffers.{BufDesc, list_get}
use pcie_host_driver.Serial.Buffers.Pool.{list_get-Taken, held, Taken-held, length-pool_free}
use pcie_host_driver.Serial.Stream.{Reader, read_loop, hand_of, in_hand, read_fuel, core_read}
use pcie_host_driver.Serial.Stream.Contents.{
  AllFit, content, contents, stream, FitsHand, pending, owned, Taken-stream, Taken-fits,
  content-split, length-copied, Stops, Taken-Stops,
}
use pcie_host_driver.Serial.Stream.Turns.{
  ReadEnd, used, after_done, after_part, copied, read_loop-none, read_loop-zero, read_loop-fault,
  read_loop-done, read_loop-part, end-none, end-some, end-turn,
}

-- A content that is copied whole leaves nothing of it.
content-done : (bd : BufDesc) (m : ℕ) → m ≤ bd.length → bd.length - m ≡ 0 → copied bd m ≡ content bd
content-done bd m h z = ap (λ n. take n (drop bd.data_at bd.bytes)) {x = m} (omega (arith, h, z))

-- The turn that finds nothing more to copy.
read_loop-last :
    (fuel : ℕ) (copies : ℕ → Bool) (n : ℕ) (r : Reader) (bd : BufDesc) (left : ℕ) (out : Bytes)
    → 1 ≤ fuel
    → left ≡ 0
    → ReadEnd copies r (some bd) left out (read_loop fuel copies n r (some bd) left out)
read_loop-last zero copies n r bd left out enough z = absurd (omega (arith, enough))
read_loop-last (suc fuel) copies n r bd (suc left) out enough z = absurd (omega (arith, z))
read_loop-last (suc fuel) copies n r bd zero out enough z =
    end-some copies r bd 0 out (read_loop (suc fuel) copies n r (some bd) 0 out) (λ good. refl)
      (read_loop-zero fuel copies n r bd out)

read_loop-ReadEnd :
    (fuel : ℕ) (copies : ℕ → Bool) (n : ℕ) (r : Reader) (bd : Option BufDesc) (remaining : ℕ)
    (out : Bytes)
    → 1 + (held bd + length r.read.chain) ≤ fuel
    → Stops bd r.read.chain
    → FitsHand bd
    → AllFit r.read.chain
    → ReadEnd copies r bd remaining out (read_loop fuel copies n r bd remaining out)
read_loop-ReadEnd zero copies n r bd remaining out enough stops fits all =
    absurd (omega (arith, enough))
read_loop-ReadEnd (suc fuel) copies n r none remaining out enough stops fits all =
    end-none copies r remaining out (read_loop (suc fuel) copies n r none remaining out) stops
      (read_loop-none fuel copies n r remaining out)
read_loop-ReadEnd (suc fuel) copies n r (some bd) zero out enough stops fits all =
    end-some copies r bd 0 out (read_loop (suc fuel) copies n r (some bd) 0 out) (λ good. refl)
      (read_loop-zero fuel copies n r bd out)
read_loop-ReadEnd (suc fuel) copies n r (some bd) (suc k) out enough stops fits all =
    let m = min (suc k) bd.length in
    let le : m ≤ bd.length = omega arith in
    let size = length-copied bd m le fits in
    let here = read_loop (suc fuel) copies n r (some bd) (suc k) out in
    elim (Bool-cases (copies n)) [
      | inr c ↦
          end-some copies r bd (suc k) out here (λ good. absurd (cc (good n, c)))
            (read_loop-fault fuel copies n r bd k out c)
      | inl c ↦ elim (Bool-cases ((bd.length - m) == 0)) [
        | inl z ↦
            let none-left = (==_iff (bd.length - m) 0).0 z in
            let r' = after_done r bd m in
            let next = (list_get r.read).0 in
            let taken = list_get-Taken r.read in
            let counts = Taken-held r.read.chain next r'.read.chain taken in
            let (fit, fits') = Taken-fits r.read.chain next r'.read.chain taken all in
            let freed = length-pool_free r.rx_pool (some (used bd m)) in
            end-turn copies r r' bd next (suc k) (suc k - m) out (copied bd m) here
              (read_loop fuel copies (n + 1) r' next (suc k - m) (out ++ copied bd m))
              (read_loop-done fuel copies n r bd k out c z)
              (ap (λ b. b ++ stream next r'.read.chain) (content-done bd m le none-left)
                ∙ ap (λ b. content bd ++ b) (Taken-stream r.read.chain next r'.read.chain taken))
              (omega (arith, size)) (omega (arith, counts, freed))
              (read_loop-ReadEnd fuel copies (n + 1) r' next (suc k - m) (out ++ copied bd m)
                (omega (arith, counts, enough)) (Taken-Stops r.read.chain next r'.read.chain taken)
                fit fits')
        | inr z ↦
            let r' = after_part r m in
            let next = used bd m in
            let more : bd.length - m ≢ 0 = λ e. absurd (cc (z, (==_iff (bd.length - m) 0).1 e)) in
            end-turn copies r r' bd (some next) (suc k) (suc k - m) out (copied bd m) here
              (read_loop fuel copies (n + 1) r' (some next) (suc k - m) (out ++ copied bd m))
              (read_loop-part fuel copies n r bd k out c z)
              (sym (append_assoc (copied bd m) (content next) (contents r.read.chain))
                ∙ ap (λ b. b ++ contents r.read.chain) (sym (content-split bd m le)))
              (omega (arith, size)) refl
              (read_loop-last fuel copies (n + 1) r' next (suc k - m) (out ++ copied bd m)
                (omega (arith, enough)) (omega (arith, more)))
      ]
    ]

-- what the user gets
pub record Delivered (copies : ℕ → Bool) (r : Reader) (len : ℕ) : Type 0 where
  pub reader : Reader
  pub out : Bytes
  pub eq : core_read copies r len ≡ some (reader, out, length out)
  pub kept : out ++ pending reader ≡ pending r
  pub bounded : length out ≤ len
  pub whole : owned reader ≡ owned r

-- The descriptor in hand, and what is behind it, are what is pending.
record InHand (r : Reader) (bd : Option BufDesc) (r' : Reader) : Type 0 where
  stops : Stops bd r'.read.chain
  fit : FitsHand bd
  fits : AllFit r'.read.chain
  same : stream bd r'.read.chain ≡ pending r
  whole : length r'.rx_pool.chain + (held bd + length r'.read.chain) ≡ owned r
  few : held bd + length r'.read.chain ≤ 1 + length r.read.chain

hand_of-InHand :
    (r : Reader) (p : Option BufDesc)
    → r.partial_read ≡ p
    → FitsHand r.partial_read
    → AllFit r.read.chain
    → InHand r (hand_of r p).0 (hand_of r p).1
unfolding hand_of
hand_of-InHand r (some bd) e fit all = record {
  stops = tt;
  fit = subst FitsHand e fit;
  fits = all;
  same = ap (λ p. stream p r.read.chain) (sym e);
  whole = ap (λ p. length r.rx_pool.chain + (held p + length r.read.chain)) (sym e);
  few = omega arith;
}
hand_of-InHand r none e fit all =
    let bd = (list_get r.read).0 in
    let c = (list_get r.read).1.chain in
    let taken = list_get-Taken r.read in
    let counts = Taken-held r.read.chain bd c taken in
    let (fit', fits') = Taken-fits r.read.chain bd c taken all in
    record {
      stops = Taken-Stops r.read.chain bd c taken;
      fit = fit';
      fits = fits';
      same = Taken-stream r.read.chain bd c taken ∙ ap (λ p. stream p r.read.chain) (sym e);
      whole =
          omega (arith, counts)
          ∙ ap (λ p. length r.rx_pool.chain + (held p + length r.read.chain)) {x = none} (sym e);
      few = omega (arith, counts);
    }

core_read-loop :
    (copies : ℕ → Bool) (r : Reader) (len : ℕ) (e : Reader) (rest : ℕ) (out : Bytes)
    → read_loop (read_fuel r) copies 0 (in_hand r).1 (in_hand r).0 len [] ≡ some (e, rest, out)
    → core_read copies r len ≡ some (e, out, len - rest)
unfolding core_read
core_read-loop copies r len e rest out eq = rw (eq, core_read) refl

-- How the loop ends on what the read starts with.
core_read-ReadEnd :
    (copies : ℕ → Bool) (r : Reader) (len : ℕ)
    → FitsHand r.partial_read
    → AllFit r.read.chain
    → ReadEnd copies
        (in_hand r).1
        (in_hand r).0
        len
        []
        (read_loop (read_fuel r) copies 0 (in_hand r).1 (in_hand r).0 len [])
unfolding read_fuel in_hand
core_read-ReadEnd copies r len fit all =
    let hand = hand_of-InHand r r.partial_read refl fit all in
    let (bd, r') = in_hand r in
    read_loop-ReadEnd (3 + length r.read.chain) copies 0 r' bd len [] (omega (arith, hand.few))
      hand.stops hand.fit hand.fits

-- Reading, with every descriptor inside its memory and whichever copies fail: the user gets a prefix
-- of the bytes that are pending, the rest stays pending, the count is the number of bytes delivered
-- and at most the length asked for, and no descriptor is lost.
pub core_read-Delivered :
    (copies : ℕ → Bool) (r : Reader) (len : ℕ)
    → FitsHand r.partial_read
    → AllFit r.read.chain
    → Delivered copies r len
unfolding in_hand
core_read-Delivered copies r len fit all =
    let hand = hand_of-InHand r r.partial_read refl fit all in
    let e = core_read-ReadEnd copies r len fit all in
    record {
      reader = e.reader;
      out = e.got;
      eq =
          core_read-loop copies r len e.reader e.rest e.got e.eq
          ∙ ap (λ n. some (e.reader, e.got, n)) (omega (arith, e.count));
      kept = e.kept ∙ hand.same;
      bounded = omega (arith, e.count);
      whole = e.whole ∙ hand.whole;
    }

-- Reading when no copy fails: the user gets the first `len` of the bytes that are pending, or all of
-- them if they are fewer, and what is behind them stays pending.
pub core_read-take :
    (copies : ℕ → Bool) (r : Reader) (len : ℕ)
    → FitsHand r.partial_read
    → AllFit r.read.chain
    → ((n : ℕ) → copies n ≡ true)
    → (r' : Reader) × (core_read copies r len
        ≡ some (r', take len (pending r), min len (length (pending r))))
      × (pending r' ≡ drop len (pending r))
unfolding in_hand
core_read-take copies r len fit all good =
    let hand = hand_of-InHand r r.partial_read refl fit all in
    let e = core_read-ReadEnd copies r len fit all in
    let kept = e.kept ∙ hand.same in
    let size = ap length (sym kept) ∙ length-append e.got (pending e.reader) in
    let count : length e.got ≡ min len (length (pending r)) = elim (e.full good) [
      | inl z ↦ omega (arith, e.count, z, size)
      | inr none-left ↦ omega (arith, e.count, ap length none-left, size)
    ] in
    let (front, back) = append-take len e.got (pending e.reader) (pending r) kept count in
    (
      e.reader,
      core_read-loop copies r len e.reader e.rest e.got e.eq
          ∙ ap (λ n. some (e.reader, e.got, n)) {y = min len (length (pending r))}
              (omega (arith, e.count, count))
          ∙ ap (λ b. some (e.reader, b, min len (length (pending r)))) front,
      back,
    )
