-- ===== src/Serial/Caps/Find.antt =====
-- serial/mxlk/mxlk_capabilities.c: what a search of the capabilities finds.
use pcie_host_driver.Prelude.{
  ℕ, zero, suc, ◌<◌, ◌≡◌, ◌≢◌, refl, sym, subst, ◌∙◌, ◌%◌, ◌^◌, ◌↔◌, none, some, arith, ◌==◌,
  ==_iff, ==-false, ℕ_discrete, if◌then◌else◌,
}
use pcie_host_driver.Mmio.{Mem, rd32}
use pcie_host_driver.Serial.Caps.{reg_cap_offset, cap_id, cap_next, cap_null, cap_walk, cap_find}

-- `Leads mmio hdr k a id`: from `hdr`, `k` links lead to `a`, the first header with the id, and none
-- before it is the end of the list.
pub data Leads (mmio : Mem) (id : ℕ) : ℕ → ℕ → ℕ → Type 0 where
  here : {hdr : ℕ} → cap_id mmio hdr ≡ id → Leads mmio id hdr 0 hdr
  later :
      {hdr k a : ℕ}
      → cap_id mmio hdr ≢ id
      → cap_id mmio hdr ≢ cap_null
      → Leads mmio id (cap_next mmio hdr) k a
      → Leads mmio id hdr (suc k) a

no-walk : (mmio : Mem) (hdr id a : ℕ) → ¬ (cap_walk 0 mmio hdr id ≡ some a)
unfolding cap_walk
no-walk mmio hdr id a e = cc e

some-inj : {a b : ℕ} → some a ≡ some b → a ≡ b
some-inj e = cc e

cap_walk-here :
    (ttl : ℕ) (mmio : Mem) (hdr id : ℕ)
    → cap_id mmio hdr ≡ id
    → cap_walk (suc ttl) mmio hdr id ≡ some hdr
unfolding cap_walk
cap_walk-here ttl mmio hdr id e = rw ((==_iff (cap_id mmio hdr) id).1 e) refl

cap_walk-null :
    (ttl : ℕ) (mmio : Mem) (hdr id : ℕ)
    → cap_id mmio hdr ≢ id
    → cap_id mmio hdr ≡ cap_null
    → cap_walk (suc ttl) mmio hdr id ≡ none
unfolding cap_walk
cap_walk-null ttl mmio hdr id ne e =
    rw (==-false (cap_id mmio hdr) id ne, (==_iff (cap_id mmio hdr) 0).1 e) refl

cap_walk-later :
    (ttl : ℕ) (mmio : Mem) (hdr id : ℕ)
    → cap_id mmio hdr ≢ id
    → cap_id mmio hdr ≢ cap_null
    → cap_walk (suc ttl) mmio hdr id ≡ cap_walk ttl mmio (cap_next mmio hdr) id
unfolding cap_walk
cap_walk-later ttl mmio hdr id ne nn =
    rw (==-false (cap_id mmio hdr) id ne, ==-false (cap_id mmio hdr) 0 nn) refl

-- what the walk finds is where the links lead
cap_walk-Leads :
    (ttl : ℕ) (mmio : Mem) (hdr id a : ℕ)
    → cap_walk ttl mmio hdr id ≡ some a
    → (k : ℕ) × (k < ttl) × Leads mmio id hdr k a
cap_walk-Leads zero mmio hdr id a e = absurd (no-walk mmio hdr id a e)
cap_walk-Leads (suc ttl) mmio hdr id a e = elim (ℕ_discrete (cap_id mmio hdr) id) [
  | yes same ↦
      let at : hdr ≡ a = some-inj (sym (cap_walk-here ttl mmio hdr id same) ∙ e) in
      (0, omega arith, subst (λ x. Leads mmio id hdr 0 x) at (here same))
  | no ne ↦ elim (ℕ_discrete (cap_id mmio hdr) 0) [
    | yes null ↦ absurd (cc (cap_walk-null ttl mmio hdr id ne null, e))
    | no more ↦
        let (k, le, leads) =
          cap_walk-Leads ttl mmio (cap_next mmio hdr) id a
            (sym (cap_walk-later ttl mmio hdr id ne more) ∙ e) in
        (suc k, omega (arith, le), later ne more leads)
  ]
]

-- and the walk finds whatever fewer links than its limit lead to
Leads-cap_walk :
    (mmio : Mem) (id hdr k a ttl : ℕ)
    → Leads mmio id hdr k a
    → k < ttl
    → cap_walk ttl mmio hdr id ≡ some a
Leads-cap_walk mmio id hdr k a zero leads le = absurd (omega (arith, le))
Leads-cap_walk mmio id hdr _ _ (suc ttl) (here e) le = cap_walk-here ttl mmio hdr id e
Leads-cap_walk mmio id hdr (suc k) a (suc ttl) (later ne more leads) le =
    cap_walk-later ttl mmio hdr id ne more
    ∙ Leads-cap_walk mmio id (cap_next mmio hdr) k a ttl leads (omega (arith, le))

-- A search finds a header exactly if at most 31 links lead to it from the start, and it is the first
-- there with the id and before the end of the list: a list with a cycle cannot make it run on.
pub cap_find_iff :
    (mmio : Mem) (start id a : ℕ)
    → let first = if start == 0 then rd32 mmio reg_cap_offset % 2 ^ 16 else start in
      (cap_find mmio start id ≡ some a) ↔ ((k : ℕ) × (k < 32) × Leads mmio id first k a)
unfolding cap_find
cap_find_iff mmio start id a =
    let first = if start == 0 then rd32 mmio reg_cap_offset % 2 ^ 16 else start in
    (
      (λ e. cap_walk-Leads 32 mmio first id a e),
      (λ (k, le, leads). Leads-cap_walk mmio id first k a 32 leads le),
    )
