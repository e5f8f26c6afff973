-- ===== src/Vpu/CmdList/Flush.antt =====
-- What a flush does to a list of commands in flight.
use pcie_host_driver.Prelude.{
  ℕ, zero, suc, ◌+◌, ◌≤◌, ◌<◌, ◌≡◌, ◌≢◌, refl, sym, ap, ◌∙◌, none, some, List, [], ◌++◌, arith,
  length, get_or, set, ℕ_discrete, Bool, not, ◌&&◌, ◌==◌, ◌∷◌, inl, inr, Bool-cases, if◌then◌else◌,
  length-set, get_or-set_self, get_or-set_ne,
}
use pcie_host_driver.Mmio.{Mem, rd32}
use pcie_host_driver.Vpu.FreeList.{Slot}
use pcie_host_driver.Vpu.CmdList.{
  Entry, CmdList, Call, blank, linked, discard_calls, command_id, cmd_list_remove, flush_from,
  cmd_list_flush,
}
use pcie_host_driver.Vpu.CmdList.Entries.{entry_at, cmd_list_remove-some}

-- The slot reached from `p` after `steps` links.
unfoldable pub follow : List Entry → ℕ → Slot → Slot
follow base zero p = p
follow base (suc steps) none = none
follow base (suc steps) (some i) = follow base steps (get_or base i blank).next

-- The link that a flush leaves in entry `i` of a list whose first free slot was `p`.
abbrev pub flushed_link : Slot → ℕ → Slot
flushed_link p zero = p
flushed_link p (suc i) = some i

-- After the first `index` rounds: entry `j` below holds `flushed_link p j` and nothing else.
record Flushed (p : Slot) (n index : ℕ) (list : CmdList) : Type 0 where
  size : length list.base ≡ n
  top : list.free ≡ flushed_link p index
  done : (j : ℕ) → j < index → entry_at list j ≡ linked (flushed_link p j)

flushed_link-suc : (p : Slot) (i : ℕ) → flushed_link p (i + 1) ≡ some i
flushed_link-suc p i = let e : i + 1 ≡ suc i = omega arith in rw e

Flushed-remove :
    (p : Slot) (n index : ℕ) (list : CmdList)
    → index < n
    → Flushed p n index list
    → Flushed p n (index + 1) (cmd_list_remove list index).0
Flushed-remove p n index list inside f =
    let e : Entry = linked list.free in
    let fits : index < length list.base = omega (arith, f.size) in
    rw (cmd_list_remove-some list index fits) (record {
      size = length-set list.base index e ∙ f.size;
      top = sym (flushed_link-suc p index);
      done = λ j lt. elim (ℕ_discrete j index) [
        | yes here ↦ rw here (get_or-set_self list.base index e blank fits ∙ ap linked f.top)
        | no there ↦
            get_or-set_ne list.base index j e blank (λ q. there (sym q)) ∙ f.done j (omega arith)
      ];
    })

flush_from-Flushed :
    (kmem : Mem) (reason : ℕ) (p : Slot) (rounds n index : ℕ) (list : CmdList)
    → index + rounds ≡ n
    → Flushed p n index list
    → Flushed p n n (flush_from kmem reason index rounds list).0
unfolding flush_from
flush_from-Flushed kmem reason p zero n index list e f =
    let e' : index ≡ n = omega arith in rw e' at f
flush_from-Flushed kmem reason p (suc rounds) n index list e f =
    flush_from-Flushed kmem reason p rounds n (index + 1) (cmd_list_remove list index).0
      (omega arith) (Flushed-remove p n index list (omega arith) f)

-- What a flush makes of a list: the entries hold nothing but links, each to the one before it, entry 0
-- to the slot that was the first free one, and the last entry is the first free one.
pub record Emptied (list list' : CmdList) : Type 0 where
  pub size : length list'.base ≡ length list.base
  pub top : list'.free ≡ flushed_link list.free (length list.base)
  pub entries :
      (j : ℕ) → j < length list.base → entry_at list' j ≡ linked (flushed_link list.free j)

-- A flush leaves entry `i` linked to entry `i - 1`, entry 0 to the slot that was the first free
-- one, and makes the last entry the first free one.
pub cmd_list_flush-links :
    (kmem : Mem) (reason : ℕ) (list : CmdList)
    → let list' = (cmd_list_flush kmem reason list).0 in
      let n = length list.base in
      (length list'.base ≡ n)
      × (list'.free ≡ flushed_link list.free n)
      × ((j : ℕ) → j < n → entry_at list' j ≡ linked (flushed_link list.free j))
unfolding cmd_list_flush
cmd_list_flush-links kmem reason list =
    let f =
      flush_from-Flushed kmem reason list.free (length list.base) (length list.base) 0 list
        (omega arith) (record { size = refl; top = refl; done = λ j lt. absurd (omega arith) }) in
    (f.size, f.top, f.done)

-- an entry of a command with a callback
abbrev pub is_waiting : Entry → Bool
is_waiting e = not (e.command == 0) && not (e.callback == 0)

-- the call that tells an entry's owner that its command is given up
abbrev pub discarded : Mem → ℕ → Entry → Call
discarded kmem reason e = record {
  callback = e.callback;
  command = e.command;
  reply = record {
    length_field = 16;
    id = rd32 kmem (e.command + 4);
    version = 1;
    status = reason;
  };
  arg = e.arg;
}

-- The calls for the entries `index`, `index + 1` and on of an array.
unfoldable pub discards_from : Mem → ℕ → List Entry → ℕ → ℕ → List Call
discards_from kmem reason base index zero = []
discards_from kmem reason base index (suc rounds) =
    let e : Entry = get_or base index blank in
    let rest = discards_from kmem reason base (index + 1) rounds in
    if is_waiting e then discarded kmem reason e ∷ rest else rest

discard_calls-discarded :
    (kmem : Mem) (reason : ℕ) (e : Entry) (rest : List Call)
    → discard_calls kmem reason (some e) ++ rest
      ≡ (if is_waiting e then discarded kmem reason e ∷ rest else rest)
unfolding discard_calls command_id
discard_calls-discarded kmem reason e rest = elim (Bool-cases (e.command == 0)) [
  | inl c ↦ rw c refl
  | inr c ↦ elim (Bool-cases (e.callback == 0)) [ inl b ↦ rw (c, b) refl | inr b ↦ rw (c, b) refl ]
]

discard_calls-next :
    (kmem : Mem) (reason : ℕ) (e : Entry)
    → discard_calls kmem reason (some (record e { next = none }))
      ≡ discard_calls kmem reason (some e)
unfolding discard_calls
discard_calls-next kmem reason e = refl

flush_from-calls :
    (kmem : Mem) (reason : ℕ) (base : List Entry) (rounds index : ℕ) (list : CmdList)
    → index + rounds ≤ length list.base
    → ((j : ℕ) → index ≤ j → entry_at list j ≡ get_or base j blank)
    → (flush_from kmem reason index rounds list).1 ≡ discards_from kmem reason base index rounds
unfolding flush_from discards_from
flush_from-calls kmem reason base zero index list fits same = refl
flush_from-calls kmem reason base (suc rounds) index list fits same =
    let fits' : index < length list.base = omega arith in
    rw
      (
        cmd_list_remove-some list index fits',
        discard_calls-next kmem reason (entry_at list index),
        same index (omega arith),
      )
      (ap (λ calls. discard_calls kmem reason (some (get_or base index blank)) ++ calls)
          (flush_from-calls kmem reason base rounds (index + 1)
            (record { base = set list.base index (linked list.free); free = some index })
            (omega (arith, length-set list.base index (linked list.free)))
            (λ j le.
              get_or-set_ne list.base index j (linked list.free) blank (omega arith)
              ∙ same j (omega arith)))
        ∙ discard_calls-discarded kmem reason (get_or base index blank)
            (discards_from kmem reason base (index + 1) rounds))

-- A flush calls back once for each entry that held a command with a callback, in the order of the
-- positions, with the command's id and the reason for its status.
pub cmd_list_flush-calls :
    (kmem : Mem) (reason : ℕ) (list : CmdList)
    → (cmd_list_flush kmem reason list).1 ≡ discards_from kmem reason list.base 0 (length list.base)
unfolding cmd_list_flush
cmd_list_flush-calls kmem reason list =
    flush_from-calls kmem reason list.base (length list.base) 0 list (omega arith) (λ j le. refl)

follow-some :
    (base : List Entry) (n : ℕ)
    → ((j : ℕ) → j < n → (k : ℕ) × ((get_or base j blank).next ≡ some k) × (k < n))
    → (steps i : ℕ) → i < n
    → follow base steps (some i) ≢ none
unfolding follow
follow-some base n links zero i lt e = cc
follow-some base n links (suc steps) i lt e =
    let (k, next, below) = links i lt in follow-some base n links steps k below (rw next at e)

flushed_link-some :
    (p : Slot) (n k j : ℕ)
    → p ≡ some k
    → k < n
    → j ≤ n
    → (i : ℕ) × (flushed_link p j ≡ some i) × (i < n)
flushed_link-some p n k zero e lt le = (k, e, lt)
flushed_link-some p n k (suc j) e lt le = (j, refl, omega arith)

-- The free list of a flushed list is a cycle if an entry was free before: however many links are
-- followed, its end is not reached.
pub cmd_list_flush-cycle :
    (kmem : Mem) (reason : ℕ) (list : CmdList) (k steps : ℕ)
    → list.free ≡ some k
    → k < length list.base
    → let list' = (cmd_list_flush kmem reason list).0 in follow list'.base steps list'.free ≢ none
cmd_list_flush-cycle kmem reason list k steps first inside =
    let list' = (cmd_list_flush kmem reason list).0 in
    let n = length list.base in
    let (size, top, links) = cmd_list_flush-links kmem reason list in
    let (i, start, below) = flushed_link-some list.free n k n first inside (omega arith) in
    λ e.
      follow-some list'.base n
        (λ j lt.
          let (m, next, m_below) = flushed_link-some list.free n k j first inside (omega arith) in
          (m, ap (λ x. x.next) (links j lt) ∙ next, m_below))
        steps i below (ap (follow list'.base steps) (sym (top ∙ start)) ∙ e)
