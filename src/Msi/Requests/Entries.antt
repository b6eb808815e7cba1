-- ===== src/Msi/Requests/Entries.antt =====
-- The entry of a request: nullification and allocation, in
-- core/memory_subsystem/pr_l1_pr_l2_dram_directory_msi/dram_directory_cntlr.cc.
use snipersimcommon.Base.{
  ℕ, Bool, ◌&&◌, Option, none, some, List, [], ◌∷◌, ◌==◌, ltb, if◌then◌else◌,
}
use snipersimcommon.Directory.Entry.{
  Entry, DState, uncached, shared, owned, modified, exclusive, get_num_sharers, get_sharers_list,
}
use snipersimcommon.Run.{Run, done, abort, check, from, ◌>>=◌, ◌>>◌}
use snipersimcommon.Msi.Message.{
  ShmemReq, inv_req, flush_req, nullify_req, tag_dir, l2_cache, create_req,
}
use snipersimcommon.Msi.Slots.{
  Slot, Place, get_directory_entry, get_replacement_candidates, replace_directory_entry,
  invalidate_directory_entry, read,
}
use snipersimcommon.Msi.State.{Setup, State, enqueue, size, send_msg, count_evict, existing}

abbrev pub Next : Type 0
Next = State → ℕ → Run State

abbrev pub requester : ShmemReq → ℕ
requester req = req.shmem_msg.requester

abbrev pub address : ShmemReq → ℕ
address req = req.shmem_msg.address

-- An invalidation for each sharer of a list.
unfoldable pub send_inv : ℕ → ℕ → List ℕ → State → State
send_inv requester address [] s = s
send_inv requester address (id ∷ ids) s =
    send_inv requester address ids (send_msg inv_req l2_cache requester id address none s)

unfoldable pub nullify_in : Setup → Next → ShmemReq → Entry → State → DState → Run State
unfolding send_inv
nullify_in p next req e s exclusive =
    done (send_msg flush_req l2_cache (requester req) e.owner (address req) none s)
nullify_in p next req e s modified =
    done (send_msg flush_req l2_cache (requester req) e.owner (address req) none s)
nullify_in p next req e s shared =
    done (send_inv (requester req) (address req) (get_sharers_list e) s)
nullify_in p next req e s uncached = do
  cache ← invalidate_directory_entry s.cache (address req)
  next (record s { cache = cache }) (address req)
nullify_in p next req e s owned = abort

-- `processNullifyReq`
unfoldable pub process_nullify : Setup → Next → State → ShmemReq → Run State
unfolding nullify_in
process_nullify p next s req = do
  found ← existing p s (address req)
  nullify_in p next req found.2.entry found.0 found.2.entry.dstate

-- An idle candidate with fewer sharers than the best so far.
abbrev pub is_better : State → Option Slot → Slot → Bool
is_better s none c = size s c.entry.address == 0
is_better s (some best) c =
    ltb (get_num_sharers c.entry) (get_num_sharers best.entry) && size s c.entry.address == 0

unfoldable pub choose : State → Option Slot → List Slot → Option Slot
choose s best [] = best
choose s best (c ∷ rest) = choose s (if is_better s best c then some c else best) rest

-- `processDirectoryEntryAllocationReq`
unfoldable pub allocate : Setup → Next → State → ShmemReq → Run (State × Place)
unfolding choose
allocate p next s req = do
  list ← get_replacement_candidates p.directory s.cache (address req)
  best ← from (choose s none list.1)
  let replaced_address = best.entry.address
  new ← replace_directory_entry p.directory list.0 replaced_address (address req)
  nullify ← create_req (record {
    msg_type = nullify_req;
    component = tag_dir;
    requester = requester req;
    receiver = requester req;
    address = replaced_address;
    data_buf = none;
  })
  let counted = count_evict best.entry.dstate (record s { cache = new.0 })
  let queued = enqueue counted replaced_address nullify
  check (size queued replaced_address == 1)
  after ← process_nullify p next queued nullify
  done (after, new.1)

unfoldable pub entry_at : Setup → Next → ShmemReq → State → Option Place → Run (State × Place)
entry_at p next req s (some place) = done (s, place)
entry_at p next req s none = allocate p next s req

-- The entry of a request, which is allocated if there is none: its place, and what is there.
unfoldable pub entry_for : Setup → Next → State → ShmemReq → Run (State × Place × Slot)
unfolding entry_at
entry_for p next s req = do
  found ← get_directory_entry p.directory s.cache (address req)
  there ← entry_at p next req (record s { cache = found.0 }) found.1
  slot ← read there.0.cache there.1
  done (there.0, there.1, slot)
