-- ===== src/Msi/Kept/Serving.antt =====
-- What the next request of a queue may be relied on to keep, and the first users of it: `retrieve`,
-- `process_nullify` and the allocation of an entry, of
-- core/memory_subsystem/pr_l1_pr_l2_dram_directory_msi/dram_directory_cntlr.cc.
use snipersimcommon.Base.{
  ℕ, ◌<◌, ◌≡◌, refl, ap, ◌∙◌, true, false, Option, none, some, List, [], ◌∷◌, length, Bool-cases,
  inl, inr, arith,
}
use snipersimcommon.Directory.Entry.{
  Entry, DState, uncached, shared, owned, modified, exclusive, get_sharers_list,
}
use snipersimcommon.Run.{Ensures, returns, aborts, Ensures-bind, Ensures-map, Ensures-check}
use snipersimcommon.Msi.Message.{
  MsgType, ShmemReq, inv_req, flush_req, wb_req, dram_read_req, l2_cache,
}
use snipersimcommon.Msi.Slots.{Slot, DirectoryCache, Place}
use snipersimcommon.Msi.State.{
  Setup, State, send_msg, reply, update_entry, existing, present, front, front_of,
}
use snipersimcommon.Msi.Requests.{
  Next, requester, address, send_inv, nullify_in, process_nullify, retrieve_in, retrieve, forwards,
}
use snipersimcommon.Msi.Coherent.{Coherent, CoherentSlot, set_forwarder-Coherent}
use snipersimcommon.Msi.Kept.Cache.{
  SoundCache, get_directory_entry-SoundCache, read-Coherent, write-SoundCache,
  invalidate_directory_entry-SoundCache,
}
use snipersimcommon.Msi.Kept.Account.{
  is_answer, is_request, due, due_nothing, account-reply, Kept-paid, Sound, Kept, nothing_paid,
  Quiet, Quiet-refl, Quiet-trans, Quiet-Kept, Kept-Quiet, Kept-of_Quiet, cache-Quiet,
  send_msg-Quiet,
}
use snipersimcommon.Msi.Kept.Queues.{change_front-Kept}

-- For up to `n` requests in the queue: the one at the front is answered already, and goes.
abbrev pub Serves : ℕ → Next → Type 0
Serves n next =
    (s : State) (a : ℕ) (req : ShmemReq) (reqs : List ShmemReq)
    → Sound s
    → s.queues a ≡ req ∷ reqs
    → length reqs < n
    → Ensures (Kept a (λ core x. due core x req) s) (next s a)

-- A request of a core is at the front, with fewer than `n` behind it.
pub record Front (n : ℕ) (s : State) (req : ShmemReq) : Type 0 where
  pub sound : Sound s
  pub reqs : List ShmemReq
  pub queue : s.queues (address req) ≡ req ∷ reqs
  pub short : length reqs < n

pub Front-Quiet : {n : ℕ} {s t : State} {req : ShmemReq} → Front n s req → Quiet s t → Front n t req
Front-Quiet {req = req} f q = record {
  sound = q.sound;
  reqs = f.reqs;
  queue = ap (λ q. q (address req)) q.queues ∙ f.queue;
  short = f.short;
}

-- The request is answered, and goes.
pub answered-Kept :
    {n : ℕ} {next : Next} {s : State} {req : ShmemReq}
    → Serves n next
    → Front n s req
    → is_request req.shmem_msg.msg_type ≡ true
    → (msg_type : MsgType) (data_buf : Option ℕ) → is_answer msg_type ≡ true
    → Ensures
        (Kept (address req) nothing_paid s)
        (next (reply msg_type (requester req) (address req) data_buf s) (address req))
unfolding reply send_msg
answered-Kept {s = s} {req} serves f request msg_type data_buf answer =
    let t = reply msg_type (requester req) (address req) data_buf s in
    Ensures-map
      (serves t (address req) req f.reqs (record { cache = f.sound.cache; queued = f.sound.queued })
        f.queue f.short)
      (λ u k. record {
        sound = k.sound;
        frame = k.frame;
        even = λ core x.
            omega
              (arith, k.even core x, account-reply s msg_type req data_buf core x answer request);
      })

present-SoundCache :
    (r : DirectoryCache × Option Place) → SoundCache r.0 → Ensures (λ q. SoundCache q.0) (present r)
unfolding present
present-SoundCache (d, none) v = aborts
present-SoundCache (d, some place) v = returns v

pub existing_lem :
    (p : Setup) {s : State}
    → Sound s
    → (a : ℕ) → Ensures (λ r. Quiet s r.0 × CoherentSlot r.2) (existing p s a)
unfolding existing
existing_lem p v a = Ensures-bind (get_directory_entry-SoundCache p.directory v.cache a) (λ found w.
    Ensures-bind (present-SoundCache found w) (λ there u.
      Ensures-bind (read-Coherent u there.1) (λ slot c. returns (cache-Quiet there.0 v u, c))))

pub update_entry-Quiet :
    {s : State}
    → Sound s
    → (place : Place) (slot : Slot) (e : Entry) → Coherent e
    → Quiet s (update_entry s place slot e)
unfolding update_entry
update_entry-Quiet v place slot e c =
    cache-Quiet _ v (write-SoundCache v.cache place (record slot { entry = e }) c)

pub send_inv-Quiet :
    (requester a : ℕ) (ids : List ℕ) {s : State} → Sound s → Quiet s (send_inv requester a ids s)
unfolding send_inv
send_inv-Quiet requester a [] v = Quiet-refl v
send_inv-Quiet requester a (id ∷ ids) v =
    let q = send_msg-Quiet inv_req l2_cache requester id a none refl v in
    Quiet-trans q (send_inv-Quiet requester a ids q.sound)

nullify_in-Kept :
    (p : Setup) {n : ℕ} {next : Next} {s : State} {req : ShmemReq} (e : Entry)
    → Serves n next
    → Front n s req
    → is_request req.shmem_msg.msg_type ≡ false
    → (d : DState) → Ensures (Kept (address req) nothing_paid s) (nullify_in p next req e s d)
unfolding nullify_in
nullify_in-Kept p {req = req} e serves f internal exclusive =
    returns (Kept-of_Quiet _ (send_msg-Quiet flush_req _ _ _ _ _ refl f.sound))
nullify_in-Kept p {req = req} e serves f internal modified =
    returns (Kept-of_Quiet _ (send_msg-Quiet flush_req _ _ _ _ _ refl f.sound))
nullify_in-Kept p {req = req} e serves f internal shared =
    returns
      (Kept-of_Quiet _ (send_inv-Quiet (requester req) (address req) (get_sharers_list e) f.sound))
nullify_in-Kept p {req = req} e serves f internal uncached =
    Ensures-bind (invalidate_directory_entry-SoundCache f.sound.cache (address req)) (λ d w.
      let q = cache-Quiet d f.sound w in
      let g = Front-Quiet f q in
      Ensures-map (serves _ (address req) req g.reqs g.sound g.queue g.short)
        (λ t k. Quiet-Kept q (Kept-paid (λ core x. due_nothing req core x internal) k)))
nullify_in-Kept p {req = req} e serves f internal owned = aborts

pub process_nullify-Kept :
    (p : Setup) {n : ℕ} {next : Next} {s : State} {req : ShmemReq}
    → Serves n next
    → Front n s req
    → is_request req.shmem_msg.msg_type ≡ false
    → Ensures (Kept (address req) nothing_paid s) (process_nullify p next s req)
unfolding process_nullify
process_nullify-Kept p {req = req} serves f internal =
    Ensures-bind (existing_lem p f.sound (address req)) (λ found q.
      Ensures-map (nullify_in-Kept p _ serves (Front-Quiet f q.0) internal _)
        (λ t k. Quiet-Kept q.0 k))

front_ends : (reqs : List ShmemReq) → Ensures (λ _. Unit) (front_of reqs)
unfolding front_of
front_ends [] = aborts
front_ends (req ∷ reqs) = returns tt

retrieve_in-Kept :
    (p : Setup) {n : ℕ} {next : Next} {s : State} {req : ShmemReq}
    → Serves n next
    → Front n s req
    → is_request req.shmem_msg.msg_type ≡ true
    → (msg_type : MsgType) → is_answer msg_type ≡ true
    → (place : Place) (slot : Slot) → CoherentSlot slot
    → (cached : Option ℕ)
    → Ensures
        (Kept (address req) nothing_paid s)
        (retrieve_in p next msg_type (requester req) (address req) place slot s cached)
unfolding retrieve_in front due
retrieve_in-Kept p {req = req} serves f request msg_type answer place slot c (some data_buf) =
    let q = update_entry-Quiet f.sound place slot _ (set_forwarder-Coherent slot.entry _ c) in
    Ensures-map (answered-Kept serves (Front-Quiet f q) request msg_type (some data_buf) answer)
      (λ t k. Quiet-Kept q k)
retrieve_in-Kept p {s = s} {req} serves f request msg_type answer place slot c none =
    Ensures-check (λ _. Ensures-bind (front_ends _) (λ r _.
      elim (Bool-cases (forwards p r slot.entry)) [
        | inl cache ↦
            let k =
              change_front-Kept {s = s} (address req)
                (λ r. record r { forwarding_from = slot.entry.forwarder }) (λ r. refl)
                (λ core x r. refl) f.sound in
            rw cache (returns (Kept-Quiet k (send_msg-Quiet wb_req _ _ _ _ _ refl k.sound)))
        | inr memory ↦
            let k =
              change_front-Kept {s = s} (address req) (λ r. record r { wait_for_data = true })
                (λ r. refl) (λ core x r. refl) f.sound in
            rw memory (returns (Kept-Quiet k (send_msg-Quiet dram_read_req _ _ _ _ _ refl k.sound)))
      ]))

pub retrieve-Kept :
    (p : Setup) {n : ℕ} {next : Next} {s : State} {req : ShmemReq}
    → Serves n next
    → Front n s req
    → is_request req.shmem_msg.msg_type ≡ true
    → (msg_type : MsgType) → is_answer msg_type ≡ true
    → (cached : Option ℕ)
    → Ensures
        (Kept (address req) nothing_paid s)
        (retrieve p next msg_type (requester req) (address req) cached s)
unfolding retrieve
retrieve-Kept p {req = req} serves f request msg_type answer cached =
    Ensures-bind (existing_lem p f.sound (address req)) (λ found q.
      Ensures-map
        (retrieve_in-Kept p serves (Front-Quiet f q.0) request msg_type answer _ _ q.1 cached)
        (λ t k. Quiet-Kept q.0 k))
