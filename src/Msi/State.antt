-- ===== src/Msi/State.antt =====
-- The state of `DramDirectoryCntlr`
-- (core/memory_subsystem/pr_l1_pr_l2_dram_directory_msi/dram_directory_cntlr.{h,cc}), its queues of requests
-- (req_queue_list.h, core/memory_subsystem/cache/req_queue_list_template.h), and what all its functions use.
use snipersimcommon.Base.{
  ℕ, ◌+◌, Option, none, some, List, [], ◌∷◌, ◌++◌, length, ◌==◌, if◌then◌else◌,
}
use snipersimcommon.Directory.Entry.{Entry, DState, uncached, shared, owned, modified, exclusive}
use snipersimcommon.Cache.Address.{Homes}
use snipersimcommon.Run.{Run, done, abort, ◌>>=◌}
use snipersimcommon.Msi.Message.{MsgType, Component, ShmemMsg, ShmemReq, Protocol, l2_cache}
use snipersimcommon.Msi.Slots.{
  Config, Slot, DirectoryCache, Place, get_directory_entry, read, write,
}

-- What the controller is made with. It has no NUCA cache.
pub record Setup : Type 0 where
  pub directory : Config
  pub protocol : Protocol
  pub homes : Homes

-- `m_req_queue_list` as a function: an address that is not in the map has the empty list. `sent` has the
-- messages that were sent, the last one first.
pub record State : Type 0 where
  pub cache : DirectoryCache
  pub queues : ℕ → List ShmemReq
  pub evict : ℕ → ℕ
  pub forward : ℕ
  pub forward_failed : ℕ
  pub sent : List ShmemMsg

unfoldable pub create : DirectoryCache → State
create cache = record {
  cache = cache;
  queues = λ x. [];
  evict = λ k. 0;
  forward = 0;
  forward_failed = 0;
  sent = [];
}

unfoldable pub put_queue : State → ℕ → List ShmemReq → State
put_queue s address reqs = record s { queues = λ x. if x == address then reqs else s.queues x }

unfoldable pub enqueue : State → ℕ → ShmemReq → State
unfolding put_queue
enqueue s address req = put_queue s address (s.queues address ++ (req ∷ []))

unfoldable pub dequeue_from : State → ℕ → List ShmemReq → Run State
unfolding put_queue
dequeue_from s address [] = abort
dequeue_from s address (req ∷ reqs) = done (put_queue s address reqs)

unfoldable pub dequeue : State → ℕ → Run State
unfolding dequeue_from
dequeue s address = dequeue_from s address (s.queues address)

unfoldable pub front_of : List ShmemReq → Run ShmemReq
front_of [] = abort
front_of (req ∷ reqs) = done req

unfoldable pub front : State → ℕ → Run ShmemReq
unfolding front_of
front s address = front_of (s.queues address)

abbrev pub size : State → ℕ → ℕ
size s address = length (s.queues address)

abbrev pub on_head : (ShmemReq → ShmemReq) → List ShmemReq → List ShmemReq
on_head f [] = []
on_head f (req ∷ reqs) = f req ∷ reqs

-- A change of the request at the front, made through the pointer to it.
unfoldable pub change_front : State → ℕ → (ShmemReq → ShmemReq) → State
unfolding put_queue
change_front s address f = put_queue s address (on_head f (s.queues address))

unfoldable pub send_msg : MsgType → Component → ℕ → ℕ → ℕ → Option ℕ → State → State
send_msg msg_type component requester receiver address data_buf s = record s {
  sent =
      (record {
        msg_type = msg_type;
        component = component;
        requester = requester;
        receiver = receiver;
        address = address;
        data_buf = data_buf;
      })
      ∷ s.sent;
}

-- The requester of a message is its receiver.
unfoldable pub reply : MsgType → ℕ → ℕ → Option ℕ → State → State
unfolding send_msg
reply msg_type receiver address data_buf s =
    send_msg msg_type l2_cache receiver receiver address data_buf s

-- `DirectoryState::dstate_t` as the index of a counter.
abbrev dstate_num : DState → ℕ
dstate_num uncached = 0
dstate_num shared = 1
dstate_num owned = 2
dstate_num modified = 3
dstate_num exclusive = 4

unfoldable pub count_evict : DState → State → State
count_evict d s = record s { evict = λ k. if k == dstate_num d then s.evict k + 1 else s.evict k }

unfoldable pub update_entry : State → Place → Slot → Entry → State
update_entry s place slot entry = record s {
  cache = write s.cache place (record slot { entry = entry });
}

unfoldable pub present : DirectoryCache × Option Place → Run (DirectoryCache × Place)
present (d, none) = abort
present (d, some place) = done (d, place)

-- The entry of an address that must have one: its place, and what is there.
unfoldable pub existing : Setup → State → ℕ → Run (State × Place × Slot)
unfolding present
existing p s address = do
  found ← get_directory_entry p.directory s.cache address
  there ← present found
  slot ← read there.0 there.1
  done (record s { cache = there.0 }, there.1, slot)
