-- ===== src/Tests/Msi.antt =====
-- A small directory, and runs of its controller
-- (core/memory_subsystem/pr_l1_pr_l2_dram_directory_msi).
use snipersimcommon.Base.{
  ℕ, ◌+◌, ◌≡◌, refl, Bool, true, false, Option, none, some, List, [], ◌∷◌, ◌++◌, map, ap, length,
  arith,
}
use snipersimcommon.Base.Every.{Every, nothing, both}
use snipersimcommon.Cache.Address.{get_home}
use snipersimcommon.Directory.Entry.{
  Entry, DState, invalid_core_id, uncached, modified, has_sharer, count, get_num_sharers,
  get_sharers_list, remove_sharer, set_owner, set_d_state, set_forwarder, set_address,
}
use snipersimcommon.Directory.Entry
use snipersimcommon.Directory.Limited
use snipersimcommon.Cache.Policy.Random.{next_seed}
use snipersimcommon.Run.{Run, done, abort, check, from, Ensures, ◌>>=◌, ◌>>◌}
use snipersimcommon.Msi.Message.{
  MsgType, ShmemMsg, ShmemReq, msi, tag_dir, l2_cache, dram, create_req, is_forwarding, ex_req,
  sh_req, inv_req, inv_rep, wb_rep, wb_req, ex_rep, dram_read_req, dram_read_rep,
}
use snipersimcommon.Msi.Slots.{
  Config, Slot, DirectoryCache, limited_no_broadcast, find_way, set_index, get_max_hw_sharers,
}
use snipersimcommon.Msi.Slots
use snipersimcommon.Msi.State.{
  Setup, State, enqueue, put_queue, dequeue, front, change_front, send_msg, reply, update_entry,
  existing,
}
use snipersimcommon.Msi.Requests.{process_ex, process_sh, process_next, entry_for, retrieve, give}
use snipersimcommon.Msi.State
use snipersimcommon.Msi.Replies.{
  Event, from_l2_cache, from_dram, run, handle_msg_from_l2_cache, handle_msg_from_dram,
  process_dram_reply, process_wb_rep, process_inv_rep, invalidated,
}
use snipersimcommon.Msi.Coherent.{create_directory_entry-Coherent}
use snipersimcommon.Msi.Kept.Account.{Sound, Kept, nothing_paid, answers, pending}
use snipersimcommon.Msi.Kept.Queues.{enqueue_lem}
use snipersimcommon.Msi.Lookup.{Resides}
use snipersimcommon.Msi.Transactions.{to_write, from_memory, write_miss}
use snipersimcommon.Msi.Errors.{reply_refused, data_refused}
use snipersimcommon.Msi.Kept.Handlers.{
  Handled, handle_msg_from_l2_cache-Handled, handle_msg_from_dram-Kept,
}
use snipersimcommon.Msi.Runs.{asked_by, create-Sound, run-answers}
use snipersimcommon.Msi.Holders.{Holders, run-Holders}

abbrev small : Setup
small = record {
  directory = record {
    directory_type = limited_no_broadcast;
    max_hw_sharers = 1;
    max_num_sharers = 4;
    software_trap_penalty = 0;
    first_forwarder = 0;
    associativity = 1;
    log_num_sets = 1;
    log_cache_block_size = 6;
    num_sets = 2;
  };
  protocol = msi;
  homes = record { ahl_param = 6; core_list = 0 ∷ 2 ∷ [] };
}

abbrev message : MsgType → ℕ → ℕ → Option ℕ → ShmemMsg
message msg_type core x data_buf = record {
  msg_type = msg_type;
  component = tag_dir;
  requester = core;
  receiver = core;
  address = x;
  data_buf = data_buf;
}

-- Core 0 writes to line 64, core 1 reads it, which invalidates core 0 since one sharer is the limit.
abbrev traffic : List Event
traffic =
    from_l2_cache 0 (message ex_req 0 64 none)
    ∷ from_dram (message dram_read_rep 0 64 (some 7))
    ∷ from_l2_cache 1 (message sh_req 1 64 none)
    ∷ from_l2_cache 0 (message wb_rep 1 64 (some 8))
    ∷ from_l2_cache 0 (message inv_rep 1 64 none)
    ∷ []

abbrev start : State
start = State.create (Slots.create small.directory 2 (0 ∷ 0 ∷ []))

abbrev types : Run State → List MsgType
types (done s) = map (λ (m : ShmemMsg). m.msg_type) s.sent
types _ = []

-- Nothing aborts, the fuel is enough, and these messages are sent, the last one first. The data 8 that core 0
-- wrote back is not sent on, neither to core 1 nor to DRAM, which is read once more.
traffic_sends :
    types (run small start traffic) ≡ dram_read_req ∷ inv_req ∷ wb_req ∷ ex_rep ∷ dram_read_req ∷ []
unfolding run ◌>>=◌ ◌>>◌ check from handle_msg_from_l2_cache handle_msg_from_dram process_dram_reply
    process_wb_rep process_inv_rep invalidated Slots.get_directory_entry set_index find_way
    Slots.read Slots.write Slots.create Slots.create_directory_entry Entry.create set_address
    State.create create_req enqueue put_queue dequeue front change_front send_msg reply update_entry
    existing process_ex process_sh process_next entry_for retrieve give Slots.add_sharer
    Slots.get_one_sharer get_max_hw_sharers Limited.add_sharer Limited.get_one_sharer
    get_sharers_list get_num_sharers count has_sharer remove_sharer set_owner set_d_state
    set_forwarder get_home next_seed is_forwarding
traffic_sends = refl

run-answers_example :
    Ensures
      (λ t.
        (core x : ℕ)
        → answers core x t.sent + pending core x (t.queues x) ≡ asked_by traffic core x)
      (run small start traffic)
run-answers_example = run-answers small 2 (0 ∷ 0 ∷ []) traffic

run-Holders_example :
    Ensures
      (λ t. Every (λ slot. Holders slot.entry) (t.cache.slots ++ t.cache.replaced))
      (run small start traffic)
run-Holders_example = run-Holders small 2 (0 ∷ 0 ∷ []) traffic

handle_msg_from_l2_cache-Handled_example :
    Ensures
      (Handled (message ex_req 0 64 none) start)
      (handle_msg_from_l2_cache small 1 start 0 (message ex_req 0 64 none))
unfolding State.create
handle_msg_from_l2_cache-Handled_example =
    handle_msg_from_l2_cache-Handled small 1 start 0 (message ex_req 0 64 none)
      (create-Sound small.directory 2 (0 ∷ 0 ∷ [])) (omega arith)

-- Line 64 is in the directory, and a request of core 2 for it waits for its data.
abbrev line_64 : DState → List Bool → Slot
line_64 dstate sharers = record {
  entry = record { address = 64; dstate = dstate; owner = 2; forwarder = 0; sharers = sharers };
  software_trap_enabled = false;
  seed = 1;
}

abbrev with_line : DState → List Bool → State
with_line dstate sharers = State.create (record {
  slots = Slots.create_directory_entry small.directory ∷ line_64 dstate sharers ∷ [];
  replaced = [];
  replacement_ptrs = 0 ∷ 0 ∷ [];
})

abbrev by_core_2 : List Bool
by_core_2 = false ∷ false ∷ true ∷ false ∷ []

abbrev waiting : ShmemReq
waiting = record {
  shmem_msg = message ex_req 2 64 none;
  wait_for_data = true;
  forwarding_from = invalid_core_id;
}

abbrev in_flight : State
in_flight = enqueue (with_line modified by_core_2) 64 waiting

with_line-Sound : Sound (with_line modified by_core_2)
unfolding State.create get_num_sharers count has_sharer
with_line-Sound = record {
  cache = record {
    slots = both (create_directory_entry-Coherent small.directory) (both (refl, refl) nothing);
    replaced = nothing;
  };
  queued = λ x. nothing;
}

in_flight-Sound : Sound in_flight
in_flight-Sound = (enqueue_lem 64 waiting with_line-Sound refl).0

in_flight_queue : in_flight.queues 64 ≡ waiting ∷ []
unfolding State.create enqueue put_queue
in_flight_queue = refl

handle_msg_from_dram-Kept_example :
    Ensures
      (Kept 64 nothing_paid in_flight)
      (handle_msg_from_dram small 1 in_flight (message dram_read_rep 2 64 (some 7)))
handle_msg_from_dram-Kept_example =
    handle_msg_from_dram-Kept small 1 in_flight (message dram_read_rep 2 64 (some 7))
      in_flight-Sound (omega (arith, ap (λ (l : List ShmemReq). length l) in_flight_queue))

abbrev by_nobody : List Bool
by_nobody = false ∷ false ∷ false ∷ false ∷ []

found_64 :
    (dstate : DState) (sharers : List Bool)
    → Resides small.directory (with_line dstate sharers).cache 64 1 (line_64 dstate sharers)
unfolding State.create find_way set_index from ◌>>=◌
found_64 dstate sharers = record { found = refl; there = refl }

write_miss_example :
    (t : State) × (run small
        (with_line uncached by_nobody)
        (from_l2_cache 2 (to_write 2 64) ∷ from_dram (from_memory 2 64 7) ∷ [])
      ≡ done t)
    × (t.sent
        ≡ record {
          msg_type = ex_rep;
          component = l2_cache;
          requester = 2;
          receiver = 2;
          address = 64;
          data_buf = some 7;
        }
          ∷ (record {
            msg_type = dram_read_req;
            component = dram;
            requester = 2;
            receiver = get_home small.homes 64;
            address = 64;
            data_buf = none;
          }
              ∷ (with_line uncached by_nobody).sent))
    × ((y : ℕ) → t.queues y ≡ (with_line uncached by_nobody).queues y)
    × (new : Slot) × Resides small.directory t.cache 64 1 new
    × (new.entry.dstate ≡ modified)
    × (new.entry.owner ≡ 2)
    × (has_sharer new.entry 2 ≡ some true)
unfolding State.create has_sharer get_num_sharers count get_max_hw_sharers
write_miss_example =
    write_miss small (with_line uncached by_nobody) 2 2 64 1 7 (line_64 uncached by_nobody) refl
      (found_64 uncached by_nobody) refl refl refl (omega arith)

reply_refused_example :
    handle_msg_from_l2_cache small 1 (with_line uncached by_nobody) 0 (message wb_rep 0 64 (some 8))
    ≡ abort
unfolding has_sharer
reply_refused_example =
    reply_refused small 1 (with_line uncached by_nobody) 0 (message wb_rep 0 64 (some 8)) 1
      (line_64 uncached by_nobody) (found_64 uncached by_nobody) refl (ground arith)

data_refused_example :
    handle_msg_from_dram small 1 start (message dram_read_rep 0 64 (some 7)) ≡ abort
unfolding State.create
data_refused_example = data_refused small 1 start (message dram_read_rep 0 64 (some 7)) refl
