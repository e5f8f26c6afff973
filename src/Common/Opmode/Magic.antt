-- ===== src/Common/Opmode/Magic.antt =====
-- common/mx_utils.c: each mode has its own text, so the order of the tests does not matter.
use pcie_host_driver.Prelude.{
  ◌≡◌, refl, sym, subst, ◌↔◌, Bool, true, false, ◌&&◌, [], ◌∷◌, ◌==◌, ==_iff, Bool-cases, inl, inr,
  arith,
}
use pcie_host_driver.Mmio.{Mem, Bytes, rd_buf}
use pcie_host_driver.Common.Opmode.{
  Opmode, unknown, boot, loader, app_vpual, app_vpulink, starts_with, boot_str, load_str, vpual_str,
  vpulink_str, get_opmode,
}

-- the text at the start of the device's memory
abbrev pub Shows : Mem → Bytes → Type 0
Shows mmio text = starts_with text (rd_buf mmio 0 16) ≡ true

-- whether two texts agree as far as the shorter goes
abbrev agree : Bytes → Bytes → Bool
agree [] ys = true
agree (x ∷ xs) [] = true
agree (x ∷ xs) (y ∷ ys) = (x == y) && agree xs ys

and-true : (a b : Bool) → (a && b) ≡ true → (a ≡ true) × (b ≡ true)
and-true true b e = (refl, e)
and-true false b e = absurd (cc e)

-- Two starts of one text agree.
starts_with-agree :
    (xs ys bs : Bytes) → starts_with xs bs ≡ true → starts_with ys bs ≡ true → agree xs ys ≡ true
starts_with-agree [] ys bs a b = refl
starts_with-agree (x ∷ xs) [] bs a b = refl
starts_with-agree (x ∷ xs) (y ∷ ys) [] a b = absurd (cc a)
starts_with-agree (x ∷ xs) (y ∷ ys) (c ∷ bs) a b =
    let (xc, a') = and-true (x == c) (starts_with xs bs) a in
    let (yc, b') = and-true (y == c) (starts_with ys bs) b in
    let x_is = (==_iff x c).0 xc in
    let y_is = (==_iff y c).0 yc in
    let same : x ≡ y = omega (arith, x_is, y_is) in
    rw ((==_iff x y).1 same) (starts_with-agree xs ys bs a' b')

-- A text that shows hides one that does not agree with it.
starts_with-hides :
    (xs ys bs : Bytes) → agree xs ys ≡ false → starts_with xs bs ≡ true → starts_with ys bs ≡ false
starts_with-hides xs ys bs d a = elim (Bool-cases (starts_with ys bs)) [
  | inl b ↦ absurd (cc (starts_with-agree xs ys bs a b, d))
  | inr b ↦ b
]

-- what the device shows in a mode
abbrev pub Reads : Mem → Opmode → Type 0
Reads mmio unknown = Unit
Reads mmio boot = Shows mmio boot_str
Reads mmio loader = Shows mmio load_str
Reads mmio app_vpual = Shows mmio vpual_str
Reads mmio app_vpulink = Shows mmio vpulink_str

module _ (mmio : Mem) where
  hides :
      (xs ys : Bytes)
      → agree xs ys ≡ false
      → Shows mmio xs
      → starts_with ys (rd_buf mmio 0 16) ≡ false
  hides xs ys = starts_with-hides xs ys (rd_buf mmio 0 16)

  Shows-boot : Shows mmio boot_str → get_opmode mmio ≡ boot
  unfolding get_opmode
  Shows-boot s = rw (s, get_opmode) refl

  Shows-loader : Shows mmio load_str → get_opmode mmio ≡ loader
  unfolding get_opmode
  Shows-loader s = rw (hides load_str boot_str refl s, s, get_opmode) refl

  Shows-vpual : Shows mmio vpual_str → get_opmode mmio ≡ app_vpual
  unfolding get_opmode
  Shows-vpual s =
      rw (hides vpual_str boot_str refl s, hides vpual_str load_str refl s, s, get_opmode) refl

  Shows-vpulink : Shows mmio vpulink_str → get_opmode mmio ≡ app_vpulink
  unfolding get_opmode
  Shows-vpulink s =
      rw
        (
          hides vpulink_str boot_str refl s,
          hides vpulink_str load_str refl s,
          hides vpulink_str vpual_str refl s,
          s,
          get_opmode,
        )
        refl

  get_opmode-Reads : Reads mmio (get_opmode mmio)
  unfolding get_opmode
  get_opmode-Reads =
      let magic = rd_buf mmio 0 16 in
      elim (Bool-cases (starts_with boot_str magic)) [
        | inl a ↦ subst (Reads mmio) (sym (Shows-boot a)) a
        | inr a ↦ elim (Bool-cases (starts_with load_str magic)) [
          | inl b ↦ subst (Reads mmio) (sym (Shows-loader b)) b
          | inr b ↦ elim (Bool-cases (starts_with vpual_str magic)) [
            | inl c ↦ subst (Reads mmio) (sym (Shows-vpual c)) c
            | inr c ↦ elim (Bool-cases (starts_with vpulink_str magic)) [
              | inl d ↦ subst (Reads mmio) (sym (Shows-vpulink d)) d
              | inr d ↦ rw (a, b, c, d, get_opmode) tt
            ]
          ]
        ]
      ]

-- The device is in a mode exactly when it shows the mode's text, whatever the order of the tests.
pub get_opmode_iff :
    (mmio : Mem)
    → ((get_opmode mmio ≡ boot) ↔ Shows mmio boot_str)
      × ((get_opmode mmio ≡ loader) ↔ Shows mmio load_str)
      × ((get_opmode mmio ≡ app_vpual) ↔ Shows mmio vpual_str)
      × ((get_opmode mmio ≡ app_vpulink) ↔ Shows mmio vpulink_str)
get_opmode_iff mmio =
    let reads = get_opmode-Reads mmio in
    (
      ((λ e. subst (Reads mmio) e reads), Shows-boot mmio),
      ((λ e. subst (Reads mmio) e reads), Shows-loader mmio),
      ((λ e. subst (Reads mmio) e reads), Shows-vpual mmio),
      ((λ e. subst (Reads mmio) e reads), Shows-vpulink mmio),
    )
