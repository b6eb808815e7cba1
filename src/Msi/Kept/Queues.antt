-- ===== src/Msi/Kept/Queues.antt =====
-- What the queues of `DramDirectoryCntlr` hold after each of its changes to them
-- (core/memory_subsystem/cache/req_queue_list_template.h).
use snipersimcommon.Base.{
  ℕ, ◌+◌, ◌≡◌, ◌≢◌, refl, sym, subst, ◌∙◌, List, [], ◌∷◌, ◌++◌, arith, ℕ_discrete,
}
use snipersimcommon.Base.Every.{Every, nothing, both, Every-append}
use snipersimcommon.Msi.Message.{ShmemReq}
use snipersimcommon.Msi.State.{State, put_queue, enqueue, change_front, on_head}
use snipersimcommon.Msi.Kept.Account.{one_if, due, pending, account, Sound, Kept, nothing_paid}

-- Queues of the addresses.
pub put_queue_at :
    (s : State) (address : ℕ) (reqs : List ShmemReq)
    → (put_queue s address reqs).queues address ≡ reqs
unfolding put_queue
put_queue_at s address reqs = ground arith

pub put_queue_other :
    (s : State) (address : ℕ) (reqs : List ShmemReq) (x : ℕ)
    → x ≢ address
    → (put_queue s address reqs).queues x ≡ s.queues x
unfolding put_queue
put_queue_other s address reqs x other = ground arith

pub put_queue-Sound :
    {s : State} (address : ℕ) (reqs : List ShmemReq)
    → Sound s
    → Every (λ req. req.shmem_msg.address ≡ address) reqs
    → Sound (put_queue s address reqs)
unfolding put_queue
put_queue-Sound {s} address reqs v all = record {
  cache = v.cache;
  queued = λ x. elim (ℕ_discrete x address) [
    | yes same ↦
        subst (λ y. Every (λ req. req.shmem_msg.address ≡ y) ((put_queue s address reqs).queues y))
          (sym same)
          (subst (Every (λ req. req.shmem_msg.address ≡ address))
            (sym (put_queue_at s address reqs)) all)
    | no other ↦
        subst (Every (λ req. req.shmem_msg.address ≡ x))
          (sym (put_queue_other s address reqs x other)) (v.queued x)
  ];
}

-- Another list in the place of one: what was due and is no more is paid.
pub put_queue-Kept :
    {s : State} (address : ℕ) (reqs : List ShmemReq) (paid : ℕ → ℕ → ℕ)
    → Sound s
    → Every (λ req. req.shmem_msg.address ≡ address) reqs
    → ((core : ℕ)
        → pending core address reqs + paid core address ≡ pending core address (s.queues address))
    → ((core x : ℕ) → x ≢ address → paid core x ≡ 0)
    → Kept address paid s (put_queue s address reqs)
unfolding put_queue account
put_queue-Kept {s} address reqs paid v all here elsewhere = record {
  sound = put_queue-Sound address reqs v all;
  frame = λ x other busy. put_queue_other s address reqs x other;
  even = λ core x. ground (arith, here core, elsewhere core x);
}

-- The request at the front and those behind it, of a sound queue.
pub front_address :
    {s : State} {address : ℕ} {req : ShmemReq} {reqs : List ShmemReq}
    → Sound s
    → s.queues address ≡ req ∷ reqs
    → (req.shmem_msg.address ≡ address) × Every (λ r. r.shmem_msg.address ≡ address) reqs
front_address {s} {address} {req} {reqs} v e =
    parts (subst (Every (λ r. r.shmem_msg.address ≡ address)) e (v.queued address))
  where
    parts :
        Every (λ r. r.shmem_msg.address ≡ address) (req ∷ reqs)
        → (req.shmem_msg.address ≡ address) × Every (λ r. r.shmem_msg.address ≡ address) reqs
    parts (both p all) = (p, all)

due_elsewhere : (core x : ℕ) (req : ShmemReq) → req.shmem_msg.address ≢ x → due core x req ≡ 0
unfolding due one_if
due_elsewhere core x req other = ground arith

-- The request at the front goes, and its account is paid.
pub pop-Kept :
    {s : State} {address : ℕ} {req : ShmemReq} {reqs : List ShmemReq}
    → Sound s
    → s.queues address ≡ req ∷ reqs
    → Kept address (λ core x. due core x req) s (put_queue s address reqs)
unfolding pending
pop-Kept {s} {address} {req} {reqs} v e =
    let (here, all) = front_address v e in
    put_queue-Kept address reqs (λ core x. due core x req) v all (λ core. rw e (omega arith))
      (λ core x other. due_elsewhere core x req (λ same. other (sym same ∙ here)))

pending-on_head :
    (f : ShmemReq → ShmemReq)
    → ((core x : ℕ) (req : ShmemReq) → due core x (f req) ≡ due core x req)
    → (core x : ℕ) (reqs : List ShmemReq) → pending core x (on_head f reqs) ≡ pending core x reqs
unfolding pending
pending-on_head f same core x [] = refl
pending-on_head f same core x (req ∷ reqs) = omega (arith, same core x req)

on_head-Every :
    (f : ShmemReq → ShmemReq) (address : ℕ)
    → ((req : ShmemReq) → (f req).shmem_msg.address ≡ req.shmem_msg.address)
    → {reqs : List ShmemReq} → Every (λ req. req.shmem_msg.address ≡ address) reqs
    → Every (λ req. req.shmem_msg.address ≡ address) (on_head f reqs)
on_head-Every f address same nothing = nothing
on_head-Every f address same (both {x} p all) = both (same x ∙ p) all

-- A change of the request at the front that leaves what it asks for.
pub change_front-Kept :
    {s : State} (address : ℕ) (f : ShmemReq → ShmemReq)
    → ((req : ShmemReq) → (f req).shmem_msg.address ≡ req.shmem_msg.address)
    → ((core x : ℕ) (req : ShmemReq) → due core x (f req) ≡ due core x req)
    → Sound s
    → Kept address nothing_paid s (change_front s address f)
unfolding change_front
change_front-Kept {s} address f same_address same_due v =
    put_queue-Kept address (on_head f (s.queues address)) nothing_paid v
      (on_head-Every f address same_address (v.queued address))
      (λ core. omega (arith, pending-on_head f same_due core address (s.queues address)))
      (λ core x other. refl)

pending-append :
    (core x : ℕ) (reqs more : List ShmemReq)
    → pending core x (reqs ++ more) ≡ pending core x reqs + pending core x more
unfolding pending
pending-append core x [] more = omega arith
pending-append core x (req ∷ reqs) more = omega (arith, pending-append core x reqs more)

-- A new request is due.
pub enqueue_lem :
    {s : State} (address : ℕ) (req : ShmemReq)
    → Sound s
    → req.shmem_msg.address ≡ address
    → Sound (enqueue s address req)
      × ((core x : ℕ) → account (enqueue s address req) core x ≡ account s core x + due core x req)
unfolding enqueue account put_queue pending
enqueue_lem {s} address req v here = (
  put_queue-Sound address (s.queues address ++ (req ∷ [])) v
      (Every-append (v.queued address) (both here nothing)),
  λ core x. elim (ℕ_discrete x address) [
    | yes same ↦ ground (arith, pending-append core x (s.queues x) (req ∷ []))
    | no other ↦ ground (arith, due_elsewhere core x req (λ there. other (sym there ∙ here)))
  ],
)
