-- ===== src/Common/Effects/Ledger.antt =====
-- common: keeping the books on what is held.
use pcie_host_driver.Prelude.{
  true, false, Option, none, some, ◌≡◌, refl, sym, ap, ◌∙◌, inl, inr, List, [], ◌∷◌, ◌++◌,
  Option-cases,
}
use pcie_host_driver.Common.Effects.{
  Act, acquire, release, stray_unmap, write_config, write_link, write_msi, set_master, save_ctx,
  restore_ctx, wait_pending, lock_device, unlock_device, queue_job, cancel_job, Held, holds, mark,
}

-- An act's effect on what is held. Acquiring what is held, which would lose it, and releasing what is
-- not held are faults.
abbrev pub book : Act → Held → Option Held
book (acquire r) h = elim (holds h r) [ true ↦ none | false ↦ some (mark h r true) ]
book (release r) h = elim (holds h r) [ true ↦ some (mark h r false) | false ↦ none ]
book stray_unmap h = some h
book (write_config a v) h = some h
book (write_link v) h = some h
book (set_master b) h = some h
book (write_msi v) h = some h
book save_ctx h = some h
book restore_ctx h = some h
book (wait_pending b) h = some h
book lock_device h = some h
book unlock_device h = some h
book (queue_job j) h = some h
book (cancel_job j) h = some h

-- what is held after a list of acts, or `none` for a fault
unfoldable pub books : List Act → Held → Option Held
books [] h = some h
books (act ∷ acts) h = elim (book act h) [ none ↦ none | some h' ↦ books acts h' ]

pub books-cons :
    (x : Act) (xs : List Act) (h k : Held) → book x h ≡ some k → books (x ∷ xs) h ≡ books xs k
unfolding books
books-cons x xs h k e = rw (e, books) refl

books_fault : (x : Act) (xs : List Act) (h : Held) → book x h ≡ none → books (x ∷ xs) h ≡ none
unfolding books
books_fault x xs h e = rw (e, books) refl

pub books-append :
    (xs ys : List Act) (h h' : Held) → books xs h ≡ some h' → books (xs ++ ys) h ≡ books ys h'
unfolding books
books-append [] ys h h' e = ap (books ys) (cc e)
books-append (x ∷ xs) ys h h' e = elim (Option-cases (book x h)) [
  | inl n ↦ absurd (cc (sym (books_fault x xs h n) ∙ e))
  | inr (k, s) ↦
      books-cons x (xs ++ ys) h k s ∙ books-append xs ys k h' (sym (books-cons x xs h k s) ∙ e)
]
