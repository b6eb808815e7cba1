-- ===== src/Msi/Kept/Allocation.antt =====
-- The allocation of an entry for a request, by
-- core/memory_subsystem/pr_l1_pr_l2_dram_directory_msi/dram_directory_cntlr.cc: the line that makes room is idle,
-- and the request stays at the front of its queue.
use snipersimcommon.Base.{
  ℕ, ◌≡◌, ◌≢◌, refl, sym, ap, subst, ◌∙◌, true, false, Option, none, some, List, [], ◌∷◌, ◌++◌,
  length, Bool-cases, inl, inr, arith, of_some,
}
use snipersimcommon.Directory.Entry.{DState}
use snipersimcommon.Run.{Ensures, returns, Ensures-bind, Ensures-map, Ensures-from, Ensures-check}
use snipersimcommon.Msi.Message.{ShmemMsg, ShmemReq, create_req}
use snipersimcommon.Msi.Slots.{Slot, Place}
use snipersimcommon.Msi.State.{Setup, State, size, enqueue, count_evict}
use snipersimcommon.Msi.Requests.{
  Next, address, is_better, choose, allocate, process_nullify, entry_at, entry_for,
}
use snipersimcommon.Msi.Coherent.{CoherentSlot}
use snipersimcommon.Msi.Kept.Cache.{
  get_directory_entry-SoundCache, get_replacement_candidates-SoundCache,
  replace_directory_entry-SoundCache, read-Coherent,
}
use snipersimcommon.Msi.Kept.Account.{
  is_request, due_nothing, Sound, Kept, nothing_paid, Quiet, Quiet-refl, Quiet-trans, Quiet-Kept,
  Kept-trans, Kept-idle, Kept-of_Quiet, cache-Quiet,
}
use snipersimcommon.Msi.Kept.Queues.{put_queue_at, put_queue_other, enqueue_lem}
use snipersimcommon.Msi.Kept.Serving.{Serves, Front, Front-Quiet, process_nullify-Kept}

is_better_idle :
    (s : State) (best : Option Slot) (c : Slot)
    → is_better s best c ≡ true
    → size s c.entry.address ≡ 0
is_better_idle s none c h = ground arith
is_better_idle s (some b) c h = ground arith

-- The entry that is chosen has no requests.
choose_idle :
    (s : State) (best : Option Slot) (cs : List Slot) (c : Slot)
    → ((b : Slot) → best ≡ some b → size s b.entry.address ≡ 0)
    → choose s best cs ≡ some c
    → size s c.entry.address ≡ 0
unfolding choose
choose_idle s best [] c idle h = idle c h
choose_idle s best (d ∷ rest) c idle h = elim (Bool-cases (is_better s best d)) [
  | inl better ↦
      choose_idle s (some d) rest c
        (λ b e.
          ap (λ (z : Slot). size s z.entry.address) (sym (of_some e))
          ∙ is_better_idle s best d better)
        (rw better at h)
  | inr worse ↦ choose_idle s best rest c idle (rw worse at h)
]

no_requests : (reqs : List ShmemReq) → length reqs ≡ 0 → reqs ≡ []
no_requests [] e = refl
no_requests (req ∷ reqs) e = absurd (omega arith)

create_req_lem : (msg : ShmemMsg) → Ensures (λ r. r.shmem_msg ≡ msg) (create_req msg)
unfolding create_req
create_req_lem msg = Ensures-check (λ _. returns refl)

-- A request of the directory itself, for an idle address.
enqueue-Kept :
    {s : State} (x : ℕ) (req : ShmemReq)
    → Sound s
    → req.shmem_msg.address ≡ x
    → is_request req.shmem_msg.msg_type ≡ false
    → Kept x nothing_paid s (enqueue s x req)
unfolding enqueue
enqueue-Kept {s} x req v here internal =
    let (sound, accounts) = enqueue_lem x req v here in
    record {
      sound = sound;
      frame = λ y other busy. put_queue_other s x (s.queues x ++ (req ∷ [])) y other;
      even = λ core y. omega (arith, accounts core y, due_nothing req core y internal);
    }

count_evict-Quiet : (d : DState) {s : State} → Sound s → Quiet s (count_evict d s)
unfolding count_evict
count_evict-Quiet d v = record {
  sound = record { cache = v.cache; queued = v.queued };
  queues = refl;
  answered = λ core x. refl;
}

-- What the allocation leaves: the accounts, and the queue of the request.
abbrev Allocated : ShmemReq → State → State → Type 0
Allocated req s t =
    Kept (address req) nothing_paid s t × (t.queues (address req) ≡ s.queues (address req))

Front-busy : {n : ℕ} {s : State} {req : ShmemReq} → Front n s req → s.queues (address req) ≢ []
Front-busy f idle = ground (arith, f.queue)

nullified :
    (p : Setup) {n : ℕ} {next : Next} {s : State} {req : ShmemReq} (nullify : ShmemReq) (x : ℕ)
    → Serves n next
    → Front n s req
    → s.queues x ≡ []
    → nullify.shmem_msg.address ≡ x
    → is_request nullify.shmem_msg.msg_type ≡ false
    → Ensures (Allocated req s) (process_nullify p next (enqueue s x nullify) nullify)
unfolding enqueue
nullified p {n} {s = s} {req} nullify x serves f idle here internal =
    let k = enqueue-Kept {s = s} x nullify f.sound here internal in
    let t = enqueue s x nullify in
    let g : Front n t nullify = record {
      sound = k.sound;
      reqs = [];
      queue =
          ap t.queues here
          ∙ put_queue_at s x (s.queues x ++ (nullify ∷ []))
          ∙ ap (λ (l : List ShmemReq). l ++ (nullify ∷ [])) idle;
      short = omega (arith, f.short);
    } in
    Ensures-map (process_nullify-Kept p serves g internal) (λ u m.
      let all = Kept-trans k (subst (λ y. Kept y nothing_paid t u) here m) in
      let busy = Front-busy f in
      (Kept-idle idle all, all.frame (address req) (λ same. busy (ap s.queues same ∙ idle)) busy))

-- A quiet step before.
Quiet-Allocated :
    (req : ShmemReq) {s t u : State} → Quiet s t → Allocated req t u → Allocated req s u
Quiet-Allocated req q a = (Quiet-Kept q a.0, a.1 ∙ ap (λ q. q (address req)) q.queues)

pub allocate-Kept :
    (p : Setup) {n : ℕ} {next : Next} {s : State} {req : ShmemReq}
    → Serves n next
    → Front n s req
    → Ensures (λ r. Allocated req s r.0) (allocate p next s req)
unfolding allocate
allocate-Kept p {s = s} {req} serves f =
    Ensures-bind (get_replacement_candidates-SoundCache p.directory f.sound.cache (address req))
      (λ list w. Ensures-bind (Ensures-from _) (λ best h.
        Ensures-bind (replace_directory_entry-SoundCache p.directory w _ _) (λ new u.
          Ensures-bind (create_req_lem _) (λ nullify m.
            let q1 = cache-Quiet new.0 f.sound u in
            let q = Quiet-trans q1 (count_evict-Quiet best.entry.dstate q1.sound) in
            let idle =
              no_requests (s.queues best.entry.address)
                (choose_idle s none list.1 best (λ b e. absurd (ground arith)) h) in
            Ensures-check (λ one.
              Ensures-bind
                (nullified p nullify best.entry.address serves (Front-Quiet f q)
                  (ap (λ z. z best.entry.address) q.queues ∙ idle)
                  (ap (λ (z : ShmemMsg). z.address) m)
                  (ap (λ (z : ShmemMsg). is_request z.msg_type) m))
                (λ after a. returns (Quiet-Allocated req q a)))))))

entry_at-Kept :
    (p : Setup) {n : ℕ} {next : Next} {s : State} {req : ShmemReq}
    → Serves n next
    → Front n s req
    → (there : Option Place) → Ensures (λ r. Allocated req s r.0) (entry_at p next req s there)
unfolding entry_at
entry_at-Kept p {req = req} serves f (some place) =
    returns (Kept-of_Quiet (address req) (Quiet-refl f.sound), refl)
entry_at-Kept p serves f none = allocate-Kept p serves f

-- The entry of a request is coherent, and the request stays at the front.
pub entry_for-Kept :
    (p : Setup) {n : ℕ} {next : Next} {s : State} {req : ShmemReq}
    → Serves n next
    → Front n s req
    → Ensures
        (λ r. Kept (address req) nothing_paid s r.0 × Front n r.0 req × CoherentSlot r.2)
        (entry_for p next s req)
unfolding entry_for
entry_for-Kept p {n} {s = s} {req} serves f =
    Ensures-bind (get_directory_entry-SoundCache p.directory f.sound.cache (address req))
      (λ found w.
        let q = cache-Quiet found.0 f.sound w in
        Ensures-bind (entry_at-Kept p serves (Front-Quiet f q) found.1) (λ there a.
          let b = Quiet-Allocated req q a in
          Ensures-bind (read-Coherent b.0.sound.cache there.1) (λ slot c. returns (
            b.0,
            record { sound = b.0.sound; reqs = f.reqs; queue = b.1 ∙ f.queue; short = f.short },
            c,
          ))))
