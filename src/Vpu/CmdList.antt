-- ===== src/Vpu/CmdList.antt =====
-- vpu/mxvp/mxvp_bspec.c: the lists of commands in flight (`struct mxvp_cmd_list`), and the ids that
-- lead from a reply back to its command. The locks are not modelled.
pub mod Entries
pub mod Flush
use pcie_host_driver.Prelude.{
  ℕ, zero, suc, ◌+◌, ◌-◌, ◌*◌, ◌%◌, ◌^◌, Bool, true, false, Option, none, some, List, [], ◌∷◌, ◌++◌,
  ltb, ◌==◌, if◌then◌else◌, length, get_or, set,
}
use pcie_host_driver.Mmio.{Mem, rd32}
use pcie_host_driver.Vpu.FreeList.{Slot}

-- `struct mxvp_cmd_list_entry`: pointers are addresses, and 0 is NULL.
pub record Entry : Type 0 where
  pub next : Slot
  pub command : ℕ
  pub callback : ℕ
  pub arg : ℕ

-- `struct mxvp_cmd_list`: the array at `base`, as long as `entries` says, and the free list.
pub record CmdList : Type 0 where
  pub base : List Entry
  pub free : Slot

-- the fields of `struct mxvp_reply` before its payload
pub record Reply : Type 0 where
  pub length_field : ℕ
  pub id : ℕ
  pub version : ℕ
  pub status : ℕ

-- A call of a command's callback: callback, command, reply and argument.
pub record Call : Type 0 where
  pub callback : ℕ
  pub command : ℕ
  pub reply : Reply
  pub arg : ℕ

abbrev pub reply_hdr_version : ℕ
reply_hdr_version = 1

abbrev pub status_discarded : ℕ
status_discarded = 0xDEADDEAD

-- the zeroed entry of kzalloc and memset
abbrev pub blank : Entry
blank = record { next = none; command = 0; callback = 0; arg = 0 }

abbrev pub linked : Slot → Entry
linked p = record blank { next = p }

-- Entry `index` and the `rounds` after it: each points at the next, the last at NULL.
unfoldable pub link_entries : ℕ → ℕ → List Entry
link_entries index zero = linked none ∷ []
link_entries index (suc rounds) = linked (some (index + 1)) ∷ link_entries (index + 1) rounds

-- For `entries` of at least 1, as at both calls (200 and 300). `none` is -ENOMEM.
unfoldable pub cmd_list_init : Bool → ℕ → Option CmdList
unfolding link_entries
cmd_list_init false entries = none
cmd_list_init true entries = some (record { base = link_entries 0 (entries - 1); free = some 0 })

-- The position of the new entry, or `none` for -ENOSPC.
unfoldable pub cmd_list_add : CmdList → ℕ → ℕ → ℕ → CmdList × Option ℕ
cmd_list_add list command callback arg = elim list.free [
  | none ↦ (list, none)
  | some i ↦
      let entry = get_or list.base i blank in
      (
        record {
          base =
              set list.base i
                (record { next = entry.next; command = command; callback = callback; arg = arg });
          free = entry.next;
        },
        some i,
      )
]

-- The entry removed, with its link cleared, or `none` for -EFAULT.
unfoldable pub cmd_list_remove : CmdList → ℕ → CmdList × Option Entry
cmd_list_remove list position =
    if ltb position (length list.base)
    then (
      record { base = set list.base position (linked list.free); free = some position },
      some (record (get_or list.base position blank) { next = none }),
    )
    else (list, none)

-- upper 16 bits: the sequence number; lower 16 bits: the position
unfoldable pub generate_id : ℕ → ℕ → ℕ
generate_id seqno position = (seqno * 2 ^ 16) % 2 ^ 32 + position % 2 ^ 16

unfoldable pub id_to_position : ℕ → ℕ
id_to_position id = id % 2 ^ 16

-- `kmem` is the kernel's memory, where the commands stand: the id of one is its second word.
unfoldable pub command_id : Mem → ℕ → ℕ
command_id kmem command = rd32 kmem (command + 4)

-- The calls that one entry removed by a flush leads to.
unfoldable pub discard_calls : Mem → ℕ → Option Entry → List Call
discard_calls kmem reason none = []
discard_calls kmem reason (some entry) =
    if entry.command == 0
    then []
    else if entry.callback == 0
    then []
    else record {
      callback = entry.callback;
      command = entry.command;
      reply = record {
        length_field = 16;
        id = command_id kmem entry.command;
        version = reply_hdr_version;
        status = reason;
      };
      arg = entry.arg;
    }
      ∷ []

-- `rounds` rounds of the loop of `mxvp_cmd_list_flush`, from `index`.
unfoldable pub flush_from : Mem → ℕ → ℕ → ℕ → CmdList → CmdList × List Call
flush_from kmem reason index zero list = (list, [])
flush_from kmem reason index (suc rounds) list =
    let (list', entry) = cmd_list_remove list index in
    let (list'', calls) = flush_from kmem reason (index + 1) rounds list' in
    (list'', discard_calls kmem reason entry ++ calls)

unfoldable pub cmd_list_flush : Mem → ℕ → CmdList → CmdList × List Call
cmd_list_flush kmem reason list = flush_from kmem reason 0 (length list.base) list

-- `mxvp_cmd_list_cleanup`: the flush; the array is freed, which leaves nothing of the list.
unfoldable pub cmd_list_cleanup : Mem → CmdList → List Call
cmd_list_cleanup kmem list = (cmd_list_flush kmem status_discarded list).1

unfoldable pub reply_to_command : CmdList → Reply → CmdList × List Call
reply_to_command list reply =
    let (list', removed) = cmd_list_remove list (id_to_position reply.id) in
    elim removed [
      | none ↦ (list', [])
      | some entry ↦ (
        list',
        if entry.callback == 0
            then []
            else record {
              callback = entry.callback;
              command = entry.command;
              reply = reply;
              arg = entry.arg;
            }
              ∷ [],
      )
    ]
