-- ===== src/Msi/Transactions.antt =====
-- A whole transaction of
-- core/memory_subsystem/pr_l1_pr_l2_dram_directory_msi/dram_directory_cntlr.cc: a core asks for a line that nobody
-- holds, to write to it, and DRAM sends the data.
use snipersimcommon.Base.{
  ℕ, suc, ◌+◌, ◌<◌, ◌≡◌, refl, ap, ◌∙◌, Bool, true, false, none, some, List, [], ◌∷◌, ◌++◌, length,
  ◌==◌, if◌then◌else◌, arith,
}
use snipersimcommon.Directory.Entry.{
  uncached, modified, has_sharer, get_num_sharers, set_d_state, invalid_core_id,
}
use snipersimcommon.Directory.Sharers.{set-Added}
use snipersimcommon.Cache.Address.{get_home}
use snipersimcommon.Run.{done, check, ◌>>=◌, ◌>>◌}
use snipersimcommon.Msi.Message.{
  MsgType, ShmemMsg, ShmemReq, ex_req, ex_rep, tag_dir, l2_cache, dram, dram_read_req,
  dram_read_rep, create_req,
}
use snipersimcommon.Msi.Slots.{Slot, way, write, get_max_hw_sharers}
use snipersimcommon.Msi.State.{
  Setup, State, size, front, front_of, put_queue, enqueue, change_front, on_head, dequeue,
  dequeue_from, send_msg, reply,
}
use snipersimcommon.Msi.Requests.{
  Next, retrieve, retrieve_in, process_ex, ex_in, from_dram, forwards, process_next, process_rest,
}
use snipersimcommon.Msi.Replies.{
  start, handle, handle_msg_from_l2_cache, handle_dram, handle_msg_from_dram, process_dram_reply,
  dram_reply_type, Event, from_l2_cache, run, deliver,
}
use snipersimcommon.Msi.Replies
use snipersimcommon.Msi.Kept.Queues.{put_queue_at}
use snipersimcommon.Msi.Lookup.{
  Resides, Resides-write, get_directory_entry_lem, existing-Resides, entry_for-Resides,
}
use snipersimcommon.Msi.Given.{given_slot, give_lem}

-- A request of a core to write to a line that nobody holds.
abbrev pub to_write : ℕ → ℕ → ShmemMsg
to_write core x = record {
  msg_type = ex_req;
  component = tag_dir;
  requester = core;
  receiver = core;
  address = x;
  data_buf = none;
}

abbrev request : ℕ → ℕ → ShmemReq
request core x = record {
  shmem_msg = to_write core x;
  wait_for_data = false;
  forwarding_from = invalid_core_id;
}

-- The request when it was processed: the line is given, and DRAM is asked.
abbrev after_ex : Setup → State → ℕ → ℕ → ℕ → Slot → Bool → State
after_ex p s core x i slot trap =
    from_dram p core x
      (record s { cache = write s.cache (way i) (given_slot slot trap core modified) })

retrieve_new :
    (p : Setup) (next : Next) (s : State) (core x i : ℕ) (slot : Slot)
    → s.queues x ≡ request core x ∷ []
    → Resides p.directory s.cache x i slot
    → slot.entry.dstate ≡ modified
    → retrieve p next ex_rep core x none s ≡ done (from_dram p core x s)
unfolding retrieve retrieve_in check front front_of ◌>>=◌ ◌>>◌
retrieve_new p next s core x i slot queue r held =
    let no_forward : forwards p (request core x) slot.entry ≡ false = ground arith in
    rw (existing-Resides p s r) (rw queue (rw no_forward refl))

process_ex_new :
    (p : Setup) (next : Next) (s : State) (core x i : ℕ) (slot : Slot)
    → s.queues x ≡ request core x ∷ []
    → Resides p.directory s.cache x i slot
    → slot.entry.dstate ≡ uncached
    → slot.entry.address ≡ x
    → has_sharer slot.entry core ≡ some false
    → get_num_sharers slot.entry < get_max_hw_sharers p.directory
    → (trap : Bool) × (process_ex p next s (request core x) none
        ≡ done (after_ex p s core x i slot trap))
unfolding process_ex ex_in set_d_state ◌>>=◌
process_ex_new p next s core x i slot queue r free_line here free room =
    let (trap, given) = give_lem p s i slot core modified free room in
    let new = given_slot slot trap core modified in
    let t = record s { cache = write s.cache (way i) new } in
    let asked = retrieve_new p next t core x i new queue (Resides-write new r here) refl in
    (
      trap,
      rw (entry_for-Resides p next s (request core x) r) (
          ap (λ d. ex_in p next (request core x) none s (way i) slot d) free_line ∙ rw given asked),
    )

queue_new :
    (s : State) (x : ℕ) (req : ShmemReq) → s.queues x ≡ [] → (enqueue s x req).queues x ≡ req ∷ []
unfolding enqueue
queue_new s x req idle =
    put_queue_at s x (s.queues x ++ (req ∷ [])) ∙ ap (λ (l : List ShmemReq). l ++ (req ∷ [])) idle

handle_new :
    (p : Setup) (next : Next) (s : State) (sender core x i : ℕ) (slot : Slot)
    → s.queues x ≡ []
    → Resides p.directory s.cache x i slot
    → slot.entry.dstate ≡ uncached
    → slot.entry.address ≡ x
    → has_sharer slot.entry core ≡ some false
    → get_num_sharers slot.entry < get_max_hw_sharers p.directory
    → (trap : Bool) × (handle p next s sender (to_write core x) ex_req
        ≡ done (after_ex p (enqueue s x (request core x)) core x i slot trap))
unfolding handle start create_req check enqueue put_queue ◌>>=◌ ◌>>◌
handle_new p next s sender core x i slot idle r free_line here free room =
    let t = enqueue s x (request core x) in
    let queue = queue_new s x (request core x) idle in
    let (trap, done_so) = process_ex_new p next t core x i slot queue r free_line here free room in
    let one : (length (t.queues x) == 1) ≡ true = ap (λ (l : List ShmemReq). length l == 1) queue in
    (trap, ap (λ b. if b then process_ex p next t (request core x) none else done t) one ∙ done_so)

-- The data of a line, from DRAM.
abbrev pub from_memory : ℕ → ℕ → ℕ → ShmemMsg
from_memory core x data_buf = record {
  msg_type = dram_read_rep;
  component = tag_dir;
  requester = core;
  receiver = core;
  address = x;
  data_buf = some data_buf;
}

next_last :
    (p : Setup) (fuel : ℕ) (s : State) (x : ℕ) (req : ShmemReq)
    → s.queues x ≡ req ∷ []
    → process_next p (suc fuel) s x ≡ done (put_queue s x [])
unfolding process_next process_rest dequeue dequeue_from check ◌>>=◌ ◌>>◌
next_last p fuel s x req queue =
    rw queue
      (ap (λ l. process_rest p (process_next p fuel) (put_queue s x []) l) (put_queue_at s x []))

abbrev asking : Bool → ℕ → ℕ → ℕ → ShmemReq
asking wait_for_data forwarding_from core x = record {
  shmem_msg = to_write core x;
  wait_for_data = wait_for_data;
  forwarding_from = forwarding_from;
}

-- The only request of the queue, to write to a line that is given already, is answered with the data.
dram_new :
    (p : Setup) (fuel : ℕ) (s : State) (core x i data_buf : ℕ) (wait : Bool) (forwarding_from : ℕ)
    (slot : Slot)
    → s.queues x ≡ asking wait forwarding_from core x ∷ []
    → Resides p.directory s.cache x i slot
    → slot.entry.dstate ≡ modified
    → handle_msg_from_dram p (suc fuel) s (from_memory core x data_buf)
      ≡ done (put_queue (reply ex_rep core x (some data_buf) s) x [])
unfolding handle_msg_from_dram handle_dram process_dram_reply dram_reply_type front front_of check
    reply send_msg ◌>>=◌ ◌>>◌
dram_new p fuel s core x i data_buf wait forwarding_from slot queue r held =
    let answer = λ (t : MsgType). process_next p (suc fuel) (reply t core x (some data_buf) s) x in
    rw queue (
      rw (existing-Resides p s r) (
        ap (λ d. dram_reply_type ex_req d >>= answer) held
        ∙ next_last p fuel (reply ex_rep core x (some data_buf) s) x
            (asking wait forwarding_from core x) queue))

waiting_queue :
    (p : Setup) (s : State) (core x i : ℕ) (slot : Slot) (trap : Bool)
    → s.queues x ≡ []
    → (after_ex p (enqueue s x (request core x)) core x i slot trap).queues x
      ≡ asking true invalid_core_id core x ∷ []
unfolding change_front send_msg
waiting_queue p s core x i slot trap idle =
    let s1 = enqueue s x (request core x) in
    let wait = λ (req : ShmemReq). record req { wait_for_data = true } in
    let given = record s1 { cache = write s1.cache (way i) (given_slot slot trap core modified) } in
    put_queue_at given x (on_head wait (s1.queues x))
    ∙ ap (on_head wait) (queue_new s x (request core x) idle)

pub found_first :
    (p : Setup) (fuel : ℕ) (s : State) (sender : ℕ) (msg : ShmemMsg) {i : ℕ} {slot : Slot}
    → Resides p.directory s.cache msg.address i slot
    → handle_msg_from_l2_cache p fuel s sender msg
      ≡ handle p (process_next p fuel) s sender msg msg.msg_type
unfolding handle_msg_from_l2_cache ◌>>=◌
found_first p fuel s sender msg r = rw (get_directory_entry_lem r) refl

-- If a line that nobody holds is in the directory, its queue is empty, the number of the core is in range, and the
-- limit of sharers is above the entry's, then a request of the core to write to the line and the data that DRAM
-- sends for it do not abort. In the end the controller has sent, first, a request for the data to the home of the
-- address, then an EX_REP with the data to the core, and nothing else; no queue has changed; and the directory
-- has the line, modified, with the core as its owner and a sharer.
pub write_miss :
    (p : Setup) (s : State) (sender core x i data_buf : ℕ) (slot : Slot)
    → s.queues x ≡ []
    → Resides p.directory s.cache x i slot
    → slot.entry.dstate ≡ uncached
    → slot.entry.address ≡ x
    → has_sharer slot.entry core ≡ some false
    → get_num_sharers slot.entry < get_max_hw_sharers p.directory
    → (t : State) × (run p s (
          from_l2_cache sender (to_write core x)
          ∷ Replies.from_dram (from_memory core x data_buf)
          ∷ [])
        ≡ done t)
      × (t.sent
          ≡ record {
            msg_type = ex_rep;
            component = l2_cache;
            requester = core;
            receiver = core;
            address = x;
            data_buf = some data_buf;
          }
            ∷ (record {
              msg_type = dram_read_req;
              component = dram;
              requester = core;
              receiver = get_home p.homes x;
              address = x;
              data_buf = none;
            }
                ∷ s.sent))
      × ((y : ℕ) → t.queues y ≡ s.queues y)
      × (new : Slot) × Resides p.directory t.cache x i new
      × (new.entry.dstate ≡ modified)
      × (new.entry.owner ≡ core)
      × (has_sharer new.entry core ≡ some true)
unfolding run deliver put_queue enqueue send_msg reply change_front set_d_state has_sharer ◌>>=◌
write_miss p s sender core x i data_buf slot idle r free_line here free room =
    let s1 = enqueue s x (request core x) in
    let fuel = size s x + 1 in
    let (trap, handled) =
      handle_new p (process_next p fuel) s sender core x i slot idle r free_line here free room in
    let t = after_ex p s1 core x i slot trap in
    let new = given_slot slot trap core modified in
    let resides : Resides p.directory t.cache x i new = Resides-write new r here in
    let queue = waiting_queue p s core x i slot trap idle in
    let answered =
      ap (λ l. handle_msg_from_dram p (length l) t (from_memory core x data_buf)) queue
      ∙ dram_new p 0 t core x i data_buf true invalid_core_id new queue resides refl in
    let asked = found_first p fuel s sender (to_write core x) r ∙ handled in
    (
      put_queue (reply ex_rep core x (some data_buf) t) x [],
      ap (λ m. m >>= λ u. run p u (Replies.from_dram (from_memory core x data_buf) ∷ [])) asked
          ∙ ap (λ m. m >>= λ u. run p u []) answered,
      refl,
      λ y. ground (arith, idle),
      new,
      resides,
      refl,
      refl,
      (set-Added slot.entry core free).there,
    )
