-- ===== src/Msi/Kept/Next.antt =====
-- `processNextReqFromL2Cache` of
-- core/memory_subsystem/pr_l1_pr_l2_dram_directory_msi/dram_directory_cntlr.cc: with as much fuel as the queue is
-- long, every request that the next one lets go on is served.
use snipersimcommon.Base.{
  ℕ, zero, suc, ◌≤◌, ◌≡◌, refl, ap, subst, ◌∙◌, none, List, [], ◌∷◌, length, arith,
}
use snipersimcommon.Run.{Ensures, returns, aborts, Ensures-done, Ensures-map, Ensures-check}
use snipersimcommon.Msi.Message.{MsgType, ShmemReq, ex_req, sh_req, upgrade_req}
use snipersimcommon.Msi.State.{Setup, State, put_queue, dequeue, dequeue_from}
use snipersimcommon.Msi.Requests.{Next, address, process_front, process_rest, process_next}
use snipersimcommon.Msi.Kept.Account.{
  is_request, Sound, Kept, nothing_paid, Quiet-refl, Kept-trans, Kept-of_Quiet,
}
use snipersimcommon.Msi.Kept.Queues.{put_queue_at, pop-Kept, front_address}
use snipersimcommon.Msi.Kept.Serving.{Serves, Front}
use snipersimcommon.Msi.Kept.Requests.{process_ex-Kept, process_sh-Kept}
use snipersimcommon.Msi.Kept.Upgrade.{process_upgrade-Kept}

process_front-Kept :
    (p : Setup) {n : ℕ} {next : Next} {s : State} {req : ShmemReq}
    → Serves n next
    → Front n s req
    → (msg_type : MsgType) → req.shmem_msg.msg_type ≡ msg_type
    → Ensures (Kept (address req) nothing_paid s) (process_front p next s req msg_type)
unfolding process_front
process_front-Kept p serves f ex_req e = process_ex-Kept p serves f (ap is_request e) none
process_front-Kept p serves f sh_req e = process_sh-Kept p serves f (ap is_request e) none
process_front-Kept p serves f upgrade_req e = process_upgrade-Kept p serves f (ap is_request e) none
process_front-Kept p serves f _ e = aborts

-- The queue that the request at the front has left.
process_rest-Kept :
    (p : Setup) {n : ℕ} {next : Next} {s : State} (x : ℕ)
    → Serves n next
    → Sound s
    → (reqs : List ShmemReq) → s.queues x ≡ reqs
    → length reqs ≤ n
    → Ensures (Kept x nothing_paid s) (process_rest p next s reqs)
unfolding process_rest
process_rest-Kept p x serves v [] e short = returns (Kept-of_Quiet x (Quiet-refl v))
process_rest-Kept p {n} {next} {s} x serves v (req ∷ reqs) e short =
    let (here, all) = front_address v e in
    let f : Front n s req = record {
      sound = v;
      reqs = reqs;
      queue = ap s.queues here ∙ e;
      short = omega arith;
    } in
    subst (λ y. Ensures (Kept y nothing_paid s) (process_front p next s req req.shmem_msg.msg_type))
      here (process_front-Kept p serves f req.shmem_msg.msg_type refl)

-- The next request is served, and so are those behind it that can be.
pub process_next-Serves : (p : Setup) (n : ℕ) → Serves n (process_next p n)
unfolding process_next dequeue dequeue_from
process_next-Serves p zero s x req reqs v e short = absurd (omega arith)
process_next-Serves p (suc n) s x req reqs v e short = Ensures-check (λ _.
    let k = pop-Kept v e in
    let t = put_queue s x reqs in
    let here : t.queues x ≡ reqs = put_queue_at s x reqs in
    rw e (
      Ensures-done t _ (
        Ensures-map
          (process_rest-Kept p x (process_next-Serves p n) k.sound (t.queues x) refl
            (rw here (omega arith)))
          (λ w m. Kept-trans k m))))
