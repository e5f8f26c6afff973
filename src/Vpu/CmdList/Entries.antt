-- ===== src/Vpu/CmdList/Entries.antt =====
-- Adding and removing commands in flight.
use pcie_host_driver.Prelude.{
  ℕ, zero, suc, ◌+◌, ◌%◌, ◌^◌, ◌<◌, ◌≡◌, ◌≢◌, refl, sym, ap, ◌∙◌, true, none, some, List, [], ◌∷◌,
  arith, length, get_or, set, length-set, get_or-set_self, get_or-set_ne, lt→ltb, ==-false,
}
use pcie_host_driver.Vpu.FreeList.{
  NotIn, Chain-frame, IsFree, IsFree-put, range_from, IsFree-range_from,
}
use pcie_host_driver.Vpu.CmdList.{
  Entry, CmdList, Reply, blank, linked, link_entries, cmd_list_init, cmd_list_add, cmd_list_remove,
  generate_id, id_to_position, reply_to_command,
}

abbrev pub entry_at : CmdList → ℕ → Entry
entry_at list i = get_or list.base i blank

-- The positions with no command are `is`, in the order in which they are handed out.
abbrev pub Vacant : CmdList → List ℕ → Type 0
Vacant list is = IsFree (length list.base) (λ i. (entry_at list i).next) list.free is

-- A position within 16 bits survives the way through an id, whatever the sequence number.
pub id_to_position-generate_id :
    (seqno position : ℕ)
    → position < 2 ^ 16
    → (id_to_position (generate_id seqno position) ≡ position)
      × (generate_id seqno position < 2 ^ 32)
unfolding id_to_position generate_id
id_to_position-generate_id seqno position h = omega arith

-- Ids of commands with different sequence numbers, modulo 2 ^ 16, differ.
pub generate_id-injective :
    (a b p q : ℕ)
    → p < 2 ^ 16
    → q < 2 ^ 16
    → generate_id a p ≡ generate_id b q
    → (a % 2 ^ 16 ≡ b % 2 ^ 16) × (p ≡ q)
unfolding generate_id
generate_id-injective a b p q hp hq e = omega arith

length-link_entries : (i k : ℕ) → length (link_entries i k) ≡ suc k
unfolding link_entries
length-link_entries i zero = refl
length-link_entries i (suc k) = ap suc (length-link_entries (i + 1) k)

link_entries-next :
    (i k j : ℕ) → j < k → (get_or (link_entries i k) j blank).next ≡ some (i + suc j)
unfolding link_entries
link_entries-next i zero j h = absurd (omega arith)
link_entries-next i (suc k) zero h = refl
link_entries-next i (suc k) (suc j) h =
    link_entries-next (i + 1) k j (omega arith) ∙ ap some (omega arith)

link_entries-end : (i k : ℕ) → (get_or (link_entries i k) k blank).next ≡ none
unfolding link_entries
link_entries-end i zero = refl
link_entries-end i (suc k) = link_entries-end (i + 1) k

-- A new list of `k + 1` entries has all positions vacant, in order.
pub cmd_list_init-Vacant :
    (k : ℕ)
    → (list : CmdList) × (cmd_list_init true (suc k) ≡ some list)
      × (length list.base ≡ suc k)
      × Vacant list (range_from 0 (suc k))
unfolding cmd_list_init
cmd_list_init-Vacant k = (
  record { base = link_entries 0 k; free = some 0 },
  ap (λ n. some (record { base = link_entries 0 n; free = some 0 })) (omega arith),
  length-link_entries 0 k,
  rw (length-link_entries 0 k) (
      IsFree-range_from (λ i. (get_or (link_entries 0 k) i blank).next) k
        (λ j h. link_entries-next 0 k j h ∙ ap some (omega arith)) (link_entries-end 0 k)),
)

module _ (list : CmdList) where
  cmd_list_add-some :
      (command callback arg i : ℕ)
      → list.free ≡ some i
      → cmd_list_add list command callback arg ≡ (
        record {
          base = set list.base i (record {
            next = (entry_at list i).next;
            command = command;
            callback = callback;
            arg = arg;
          });
          free = (entry_at list i).next;
        },
        some i,
      )
  unfolding cmd_list_add
  cmd_list_add-some command callback arg i first = rw (first, cmd_list_add)

  pub cmd_list_remove-some :
      (i : ℕ)
      → i < length list.base
      → cmd_list_remove list i ≡ (
        record { base = set list.base i (linked list.free); free = some i },
        some (record (entry_at list i) { next = none }),
      )
  unfolding cmd_list_remove
  cmd_list_remove-some i inside = rw (lt→ltb i (length list.base) inside)

  -- `add` stores the command at the first vacant position, takes that position from the vacant ones,
  -- and keeps every other entry.
  pub cmd_list_add-Vacant :
      (command callback arg i : ℕ) (is : List ℕ)
      → Vacant list (i ∷ is)
      → let (list', position) = cmd_list_add list command callback arg in
        (position ≡ some i)
        × ((entry_at list' i).command ≡ command)
        × ((entry_at list' i).callback ≡ callback)
        × ((entry_at list' i).arg ≡ arg)
        × ((j : ℕ) → j ≢ i → entry_at list' j ≡ entry_at list j)
        × (length list'.base ≡ length list.base)
        × Vacant list' is
  cmd_list_add-Vacant command callback arg i is v =
      let e : Entry = record {
        next = (entry_at list i).next;
        command = command;
        callback = callback;
        arg = arg;
      } in
      let here : get_or (set list.base i e) i blank ≡ e =
        get_or-set_self list.base i e blank v.below.0 in
      let there : (j : ℕ) → j ≢ i → get_or (set list.base i e) j blank ≡ entry_at list j =
        λ j ne. get_or-set_ne list.base i j e blank (λ p. ne (sym p)) in
      rw (cmd_list_add-some command callback arg i v.chain.0) (
        refl,
        ap (λ x. x.command) here,
        ap (λ x. x.callback) here,
        ap (λ x. x.arg) here,
        there,
        length-set list.base i e,
        record {
          chain =
              Chain-frame (λ j. (entry_at list j).next)
                (λ j. (get_or (set list.base i e) j blank).next) (entry_at list i).next is i
                (λ j ne. ap (λ x. x.next) (there j ne)) v.distinct.0 v.chain.1;
          distinct = v.distinct.1;
          below = rw (length-set list.base i e) v.below.1;
        },
      )

  -- `remove` of a position in use returns its entry, makes the position the first vacant one, and
  -- keeps every other entry.
  pub cmd_list_remove-Vacant :
      (i : ℕ) (is : List ℕ)
      → i < length list.base
      → NotIn i is
      → Vacant list is
      → let (list', removed) = cmd_list_remove list i in
        (removed ≡ some (record (entry_at list i) { next = none }))
        × ((j : ℕ) → j ≢ i → entry_at list' j ≡ entry_at list j)
        × (length list'.base ≡ length list.base)
        × Vacant list' (i ∷ is)
  cmd_list_remove-Vacant i is inside out v =
      let e : Entry = linked list.free in
      let there : (j : ℕ) → j ≢ i → get_or (set list.base i e) j blank ≡ entry_at list j =
        λ j ne. get_or-set_ne list.base i j e blank (λ p. ne (sym p)) in
      rw (cmd_list_remove-some i inside) (
        refl,
        there,
        length-set list.base i e,
        rw (length-set list.base i e) (
            IsFree-put (length list.base) (λ j. (entry_at list j).next)
              (λ j. (get_or (set list.base i e) j blank).next) list.free i is
              (λ j ne. ap (λ x. x.next) (there j ne))
              (ap (λ x. x.next) (get_or-set_self list.base i e blank inside)) inside out v),
      )

  -- A reply whose id leads to a position in use calls that command's callback, once, with the
  -- command, the reply and the argument, and makes the position vacant.
  pub reply_to_command-Vacant :
      (reply : Reply) (is : List ℕ)
      → let i = id_to_position reply.id in
        i < length list.base
        → NotIn i is
        → (entry_at list i).callback ≢ 0
        → Vacant list is
        → let (list', calls) = reply_to_command list reply in
          (calls
            ≡ record {
              callback = (entry_at list i).callback;
              command = (entry_at list i).command;
              reply = reply;
              arg = (entry_at list i).arg;
            }
              ∷ [])
          × Vacant list' (i ∷ is)
  unfolding reply_to_command
  reply_to_command-Vacant reply is inside out set_back v =
      let i = id_to_position reply.id in
      let (removed, same, kept, v') = cmd_list_remove-Vacant i is inside out v in
      rw (cmd_list_remove-some i inside, reply_to_command)
        (rw (==-false (entry_at list i).callback 0 set_back) (refl, v'))
