-- ===== src/Msi/Kept/Flushes.antt =====
-- `processFlushRepFromL2Cache` and `processWbRepFromL2Cache` of
-- core/memory_subsystem/pr_l1_pr_l2_dram_directory_msi/dram_directory_cntlr.cc.
use snipersimcommon.Base.{
  ℕ, ◌≤◌, ◌≡◌, refl, sym, ap, subst, ◌∙◌, true, Option, some, List, [], ◌∷◌, length, ◌==◌,
  Bool-cases, inl, inr, arith,
}
use snipersimcommon.Directory.Entry.{Entry, get_num_sharers}
use snipersimcommon.Run.{
  Ensures, returns, aborts, Ensures-bind, Ensures-map, Ensures-from, Ensures-check,
}
use snipersimcommon.Msi.Message.{
  MsgType, ShmemMsg, ShmemReq, ex_req, sh_req, upgrade_req, dram_write_req, dram,
}
use snipersimcommon.Msi.Slots.{Slot, Place}
use snipersimcommon.Msi.State.{Setup, State, change_front}
use snipersimcommon.Msi.Requests.{Next, requester, address, process_sh}
use snipersimcommon.Msi.Replies.{
  flush_wakes, flush_queue, flushed, process_flush_rep, wb_queue, process_wb_rep, send_data_to_dram,
  is_sh_req,
}
use snipersimcommon.Msi.Coherent.{
  Coherent, Removed, remove_sharer-Removed, uncached-Coherent, set_owner_lem, shared-Coherent,
  counted_if_there,
}
use snipersimcommon.Msi.Kept.Account.{
  is_request, due, Sound, Kept, nothing_paid, Quiet, send_msg-Quiet, Quiet-trans, Quiet-Kept,
  Kept-of_Quiet,
}
use snipersimcommon.Msi.Kept.Queues.{change_front-Kept}
use snipersimcommon.Msi.Kept.Serving.{
  Serves, Front, Front-Quiet, existing_lem, update_entry-Quiet, process_nullify-Kept,
}
use snipersimcommon.Msi.Kept.Requests.{process_ex-Kept, process_sh-Kept}
use snipersimcommon.Msi.Kept.Upgrade.{process_upgrade-Kept}
use snipersimcommon.Msi.Kept.Replies.{Front-of_queue, settle-Coherent, Removed-set_forwarder}

send_data_to_dram-Quiet :
    (p : Setup) (x requester : ℕ) (data_buf : Option ℕ) {s : State}
    → Sound s
    → Ensures (Quiet s) (send_data_to_dram p x requester data_buf s)
unfolding send_data_to_dram
send_data_to_dram-Quiet p x requester data_buf v =
    Ensures-check (λ _. returns (send_msg-Quiet dram_write_req dram _ _ _ data_buf refl v))

flush_upgrade-Kept :
    (p : Setup) {n : ℕ} {next : Next} {s : State} {req : ShmemReq}
    → Serves n next
    → Front n s req
    → (msg : ShmemMsg) (e : Entry) (place : Place) (slot : Slot)
    → req.shmem_msg.msg_type ≡ upgrade_req
    → address req ≡ msg.address
    → Ensures
        (Kept (address req) nothing_paid s)
        (flush_wakes p next msg req s e place slot upgrade_req)
unfolding flush_wakes due
flush_upgrade-Kept p {s = s} {req} serves f msg e place slot same here =
    elim (Bool-cases (get_num_sharers e == 0)) [
      | inl no_copy ↦
          let q = update_entry-Quiet f.sound place slot _ (uncached-Coherent e (ground arith)) in
          rw no_copy (
            Ensures-map
              (process_upgrade-Kept p serves (Front-Quiet f q) (ap is_request same) msg.data_buf)
              (λ t k. Quiet-Kept q k))
      | inr copies ↦
          let store = λ (r : ShmemReq). record r {
            shmem_msg = record r.shmem_msg { data_buf = msg.data_buf };
          } in
          rw copies (
            returns (
              subst (λ y. Kept y nothing_paid s (change_front s msg.address store)) (sym here)
                (change_front-Kept msg.address store (λ r. refl) (λ core x r. refl) f.sound)))
    ]

flush_wakes-Kept :
    (p : Setup) {n : ℕ} {next : Next} {s : State} {req : ShmemReq}
    → Serves n next
    → Front n s req
    → (msg : ShmemMsg) (e : Entry) (place : Place) (slot : Slot) (t : MsgType)
    → req.shmem_msg.msg_type ≡ t
    → address req ≡ msg.address
    → Ensures (Kept (address req) nothing_paid s) (flush_wakes p next msg req s e place slot t)
unfolding flush_wakes
flush_wakes-Kept p serves f msg e place slot ex_req same here =
    process_ex-Kept p serves f (ap is_request same) msg.data_buf
flush_wakes-Kept p serves f msg e place slot sh_req same here =
    Ensures-bind (send_data_to_dram-Quiet p msg.address msg.requester msg.data_buf f.sound) (λ t q.
      Ensures-map (process_sh-Kept p serves (Front-Quiet f q) (ap is_request same) msg.data_buf)
        (λ u k. Quiet-Kept q k))
flush_wakes-Kept p serves f msg e place slot upgrade_req same here =
    flush_upgrade-Kept p serves f msg e place slot same here
flush_wakes-Kept p serves f msg e place slot other same here =
    Ensures-bind (send_data_to_dram-Quiet p msg.address msg.requester msg.data_buf f.sound) (λ t q.
      Ensures-map (process_nullify-Kept p serves (Front-Quiet f q) (ap is_request same))
        (λ u k. Quiet-Kept q k))

flush_queue-Kept :
    (p : Setup) {n : ℕ} {next : Next} {s : State}
    → Serves n next
    → Sound s
    → (msg : ShmemMsg) → length (s.queues msg.address) ≤ n
    → (e : Entry) (place : Place) (slot : Slot) (reqs : List ShmemReq) → s.queues msg.address ≡ reqs
    → Ensures (Kept msg.address nothing_paid s) (flush_queue p next msg s e place slot reqs)
unfolding flush_queue
flush_queue-Kept p serves v msg short e place slot [] same =
    Ensures-map (send_data_to_dram-Quiet p msg.address msg.requester msg.data_buf v)
      (λ t q. Kept-of_Quiet msg.address q)
flush_queue-Kept p {n} {next} {s} serves v msg short e place slot (req ∷ reqs) same =
    let (f, here) = Front-of_queue {n = n} v same short in
    subst
      (λ y.
        Ensures (Kept y nothing_paid s)
          (flush_wakes p next msg req s e place slot req.shmem_msg.msg_type))
      here (flush_wakes-Kept p serves f msg e place slot req.shmem_msg.msg_type refl here)

Removed-owner :
    (e r z : Entry) (core : ℕ) → Removed e r → record r { owner = core } ≡ z → Removed e z
unfolding get_num_sharers
Removed-owner e r z core rem same =
    subst (Removed e) same (record { less = rem.less; dstate = rem.dstate })

flushed-Coherent : (e r : Entry) → Coherent e → Removed e r → Ensures Coherent (flushed r)
unfolding flushed
flushed-Coherent e r c rem = Ensures-bind (set_owner_lem _ _) (λ z same. Ensures-check (λ _.
    returns (settle-Coherent e z c (Removed-owner e _ z _ (Removed-set_forwarder e r _ rem) same))))

pub process_flush_rep-Kept :
    (p : Setup) {n : ℕ} {next : Next} {s : State}
    → Serves n next
    → Sound s
    → (sender : ℕ) (msg : ShmemMsg) → length (s.queues msg.address) ≤ n
    → Ensures (Kept msg.address nothing_paid s) (process_flush_rep p next s sender msg)
unfolding process_flush_rep
process_flush_rep-Kept p {n} {s = s} serves v sender msg short =
    Ensures-bind (existing_lem p v msg.address) (λ found q.
      Ensures-bind (Ensures-from _) (λ there _. Ensures-check (λ _.
        Ensures-bind (remove_sharer-Removed found.2.entry sender) (λ removed rem.
          Ensures-bind (flushed-Coherent found.2.entry removed q.1 rem) (λ e c.
            let all = Quiet-trans q.0 (update_entry-Quiet q.0.sound found.1 found.2 e c) in
            Ensures-map
              (flush_queue-Kept p serves all.sound msg
                (subst (λ l. length l ≤ n) (sym (ap (λ z. z msg.address) all.queues)) short) e
                found.1 found.2 _ refl)
              (λ t k. Quiet-Kept all k))))))

wb_queue-Kept :
    (p : Setup) {n : ℕ} {next : Next} {s : State}
    → Serves n next
    → Sound s
    → (msg : ShmemMsg) → length (s.queues msg.address) ≤ n
    → (reqs : List ShmemReq) → s.queues msg.address ≡ reqs
    → Ensures (Kept msg.address nothing_paid s) (wb_queue p next msg s reqs)
unfolding wb_queue
wb_queue-Kept p serves v msg short [] same = aborts
wb_queue-Kept p {n} {next} {s} serves v msg short (req ∷ reqs) same = Ensures-check (λ test.
    let (f, here) = Front-of_queue {n = n} v same short in
    subst (λ y. Ensures (Kept y nothing_paid s) (process_sh p next s req msg.data_buf)) here
      (process_sh-Kept p serves f (sh_request req.shmem_msg.msg_type test) msg.data_buf))
  where
    sh_request : (t : MsgType) → is_sh_req t ≡ true → is_request t ≡ true
    sh_request sh_req e = refl
    sh_request _ e = cc

kept_sharers :
    (e z : Entry) (core : ℕ) → record e { owner = core } ≡ z → get_num_sharers z ≡ get_num_sharers e
unfolding get_num_sharers
kept_sharers e z core same = sym (ap get_num_sharers same)

pub process_wb_rep-Kept :
    (p : Setup) {n : ℕ} {next : Next} {s : State}
    → Serves n next
    → Sound s
    → (sender : ℕ) (msg : ShmemMsg) → length (s.queues msg.address) ≤ n
    → Ensures (Kept msg.address nothing_paid s) (process_wb_rep p next s sender msg)
unfolding process_wb_rep
process_wb_rep-Kept p {n} {s = s} serves v sender msg short =
    Ensures-bind (existing_lem p v msg.address) (λ found q.
      Ensures-bind (Ensures-from _) (λ there h. Ensures-check (λ test.
        Ensures-bind (set_owner_lem found.2.entry _) (λ e same.
          let some_sharer = counted_if_there found.2.entry sender (h ∙ ap some test) in
          let c =
            shared-Coherent e (omega (arith, some_sharer, kept_sharers found.2.entry e _ same)) in
          let all = Quiet-trans q.0 (update_entry-Quiet q.0.sound found.1 found.2 _ c) in
          Ensures-map
            (wb_queue-Kept p serves all.sound msg
              (subst (λ l. length l ≤ n) (sym (ap (λ z. z msg.address) all.queues)) short) _ refl)
            (λ t k. Quiet-Kept all k)))))
