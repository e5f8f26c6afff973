-- ===== src/Serial/Stream/Contents.antt =====
-- The bytes that a chain of descriptors holds.
use pcie_host_driver.Prelude.{
  ℕ, ◌+◌, ◌-◌, ◌≤◌, ◌≡◌, sym, ap, subst, ◌∙◌, Option, none, some, List, [], ◌∷◌, ◌++◌, arith,
  length, take, drop, length-take, length-drop, take-split, drop-drop,
}
use pcie_host_driver.Mmio.{Bytes}
use pcie_host_driver.Serial.Buffers.{BufDesc}
use pcie_host_driver.Serial.Buffers.Pool.{Taken, held}
use pcie_host_driver.Serial.Stream.{Reader}

-- The data of a descriptor lies inside its memory.
abbrev pub Fits : BufDesc → Type 0
Fits bd = bd.data_at + bd.length ≤ length bd.bytes

abbrev pub AllFit : List BufDesc → Type 0
AllFit [] = Unit
AllFit (bd ∷ bds) = Fits bd × AllFit bds

abbrev pub content : BufDesc → Bytes
content bd = take bd.length (drop bd.data_at bd.bytes)

abbrev pub contents : List BufDesc → Bytes
contents [] = []
contents (bd ∷ bds) = content bd ++ contents bds

-- the bytes of a descriptor in hand and of those behind it
abbrev pub stream : Option BufDesc → List BufDesc → Bytes
stream none bds = contents bds
stream (some bd) bds = content bd ++ contents bds

abbrev pub FitsHand : Option BufDesc → Type 0
FitsHand none = Unit
FitsHand (some bd) = Fits bd

-- what is still to be read
abbrev pub pending : Reader → Bytes
pending r = stream r.partial_read r.read.chain

-- the descriptors that the reader and its pool hold
abbrev pub owned : Reader → ℕ
owned r = length r.rx_pool.chain + (held r.partial_read + length r.read.chain)

pub Taken-stream :
    (c : List BufDesc) (bd : Option BufDesc) (c' : List BufDesc)
    → Taken c bd c'
    → stream bd c' ≡ contents c
Taken-stream c none c' (e, e') = ap contents e' ∙ sym (ap contents e)
Taken-stream c (some bd) c' e = sym (ap contents e)

pub Taken-fits :
    (c : List BufDesc) (bd : Option BufDesc) (c' : List BufDesc)
    → Taken c bd c'
    → AllFit c
    → FitsHand bd × AllFit c'
Taken-fits c none c' (e, e') f = (tt, subst AllFit (sym e') tt)
Taken-fits c (some bd) c' e f = subst AllFit e f

-- The content of a descriptor is what a turn copies and the content that it leaves.
pub content-split :
    (bd : BufDesc) (m : ℕ)
    → m ≤ bd.length
    → content bd
      ≡ take m (drop bd.data_at bd.bytes)
        ++ content (record bd { data_at = bd.data_at + m; length = bd.length - m })
content-split bd m h =
    ap (λ n. take n (drop bd.data_at bd.bytes)) (omega (arith, h))
    ∙ take-split m (bd.length - m) (drop bd.data_at bd.bytes)
    ∙ ap (λ r. take m (drop bd.data_at bd.bytes) ++ take (bd.length - m) r)
        (drop-drop bd.data_at m bd.bytes)

pub length-copied :
    (bd : BufDesc) (m : ℕ)
    → m ≤ bd.length
    → Fits bd
    → length (take m (drop bd.data_at bd.bytes)) ≡ m
length-copied bd m h fits =
    let a = length-take m (drop bd.data_at bd.bytes) in
    let b = length-drop bd.data_at bd.bytes in omega (arith, h, fits, a, b)

-- Nothing in hand means nothing behind it.
abbrev pub Stops : Option BufDesc → List BufDesc → Type 0
Stops none bds = bds ≡ []
Stops (some bd) bds = Unit

pub Taken-Stops :
    (c : List BufDesc) (bd : Option BufDesc) (c' : List BufDesc) → Taken c bd c' → Stops bd c'
Taken-Stops c none c' (e, e') = e'
Taken-Stops c (some bd) c' e = tt
